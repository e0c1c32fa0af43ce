-- ===== src/Tests/Wakeups.antt =====
-- Two workers, of which the first is about to wait.
use gpu_vmm.Prelude.{◌≡◌, refl, false, some, [], ◌∷◌, get_elem?}
use gpu_vmm.Migration.Monitor.{
  deciding, sleeping, waking, stopped, working, joining, Monitor, wake_all, again, Moves, here,
  next, break,
}
use gpu_vmm.Migration.Wakeup.{missed, stirs, lost_wakeup}

abbrev about_to_wait : Monitor
about_to_wait = record {
  queue = [];
  threads = deciding ∷ sleeping ∷ [];
  owner = some 0;
  shutdown = false;
  signals = 0;
  stage = working;
}

-- The second worker is woken and leaves.
abbrev one_left : Monitor
one_left = record (missed about_to_wait 0) { threads = sleeping ∷ stopped ∷ [] }

second_leaves : Moves (missed about_to_wait 0) one_left
unfolding wake_all
second_leaves = next here (break 1 waking refl again refl refl refl)

lost_wakeup_example :
    Moves about_to_wait (missed about_to_wait 0)
    × (get_elem? one_left.threads 0 ≡ some sleeping)
    × (one_left.stage ≡ joining)
unfolding stirs second_leaves
lost_wakeup_example = lost_wakeup about_to_wait one_left 0 refl refl refl second_leaves refl
