-- ===== src/Migration/Wakeup.antt =====
-- The destructor against a worker that is about to wait.
use gpu_vmm.Prelude.{
  ℕ, zero, suc, ◌+◌, if◌then◌else◌, false, ◌≡◌, ◌≢◌, refl, sym, ◌∙◌, ap, true, none, some, List, [],
  ◌∷◌, arith, set, get_elem?, ◌==◌, Bool-cases, inl, inr, ==→eq, ==→ne, get_elem?-set_self,
  get_elem?-set_ne, get_elem?-lt,
}
use gpu_vmm.Migration.Monitor.{
  Thread, testing, locking, deciding, sleeping, waking, stopped, running, working, joining, Monitor,
  wake, wake_all, Wants, first, again, AllLeft, Move, submit, notify_one, notify_none, enter, leave,
  take, break, look, block, stir, finish, flag, notify_all, join, Moves, here, next,
}

-- The destructor sets the flag and notifies, and worker `i`, which has seen neither, goes to sleep.
abbrev pub missed : Monitor → ℕ → Monitor
missed m i = record m {
  shutdown = true;
  stage = joining;
  threads = set (wake_all m.threads) i sleeping;
  owner = none;
}

get_elem?-wake_all :
    (ts : List Thread) (i : ℕ) (t : Thread)
    → get_elem? ts i ≡ some t
    → get_elem? (wake_all ts) i ≡ some (wake t)
unfolding wake_all
get_elem?-wake_all [] i t h = absurd (ground (arith, h))
get_elem?-wake_all (x ∷ ts) zero t h =
    let e : x ≡ t = ground (arith, h) in ap (λ y. some (wake y)) e
get_elem?-wake_all (x ∷ ts) (suc i) t h = get_elem?-wake_all ts i t h

-- Worker `i` sleeps and the destructor waits for it.
record IsStuck (i : ℕ) (m : Monitor) : Type 0 where
  asleep : get_elem? m.threads i ≡ some sleeping
  waits : m.stage ≡ joining
  quiet : m.signals ≡ 0

-- A worker that is not asleep changes its state.
other_thread :
    (m : Monitor) (i k : ℕ) (t u : Thread)
    → IsStuck i m
    → get_elem? m.threads k ≡ some t
    → t ≢ sleeping
    → get_elem? (set m.threads k u) i ≡ some sleeping
other_thread m i k t u s at_k ne =
    get_elem?-set_ne m.threads k i u (λ same. ne (
      let e : some t ≡ some sleeping = sym at_k ∙ ap (get_elem? m.threads) same ∙ s.asleep in
      ground (arith, e)))
    ∙ s.asleep

asleep-not-AllLeft : (ts : List Thread) (i : ℕ) → get_elem? ts i ≡ some sleeping → AllLeft ts → ⊥
asleep-not-AllLeft [] i h all = ground (arith, h)
asleep-not-AllLeft (t ∷ ts) zero h all = ground (arith, h, all.0)
asleep-not-AllLeft (t ∷ ts) (suc i) h all = asleep-not-AllLeft ts i h all.1

Wants-awake : (t : Thread) → Wants t → t ≢ sleeping
Wants-awake t first h = ground (arith, h)
Wants-awake t again h = ground (arith, h)

moved :
    (m : Monitor) (i k : ℕ) (t u : Thread) (n : Monitor)
    → IsStuck i m
    → get_elem? m.threads k ≡ some t
    → t ≢ sleeping
    → n.threads ≡ set m.threads k u
    → n.stage ≡ m.stage
    → n.signals ≡ m.signals
    → IsStuck i n
moved m i k t u n s at_k ne threads stage signals = record {
  asleep = rw threads (other_thread m i k t u s at_k ne);
  waits = stage ∙ s.waits;
  quiet = signals ∙ s.quiet;
}

-- How often worker `i` wakes spuriously.
unfoldable pub stirs_in : {m n : Monitor} → ℕ → Move m n → ℕ
stirs_in i (stir k h) = if k == i then 1 else 0
stirs_in i v = 0

unfoldable pub stirs : {m n : Monitor} → ℕ → Moves m n → ℕ
unfolding stirs_in
stirs i here = 0
stirs i (next r v) = stirs i r + stirs_in i v

Move-IsStuck :
    {m n : Monitor} (i : ℕ) → IsStuck i m → (v : Move m n) → stirs_in i v ≡ 0 → IsStuck i n
unfolding stirs_in
Move-IsStuck i s (submit j w o) calm = absurd (ground (arith, s.waits, w))
Move-IsStuck i s (notify_one k n e h) calm = absurd (omega (arith, s.quiet, e))
Move-IsStuck i s (notify_none n e h) calm = absurd (omega (arith, s.quiet, e))
Move-IsStuck {m} i s (enter k h e) calm =
    moved m i k testing locking _ s h (λ z. ground (arith, z)) refl refl refl
Move-IsStuck {m} i s (leave k h e) calm =
    moved m i k testing stopped _ s h (λ z. ground (arith, z)) refl refl refl
Move-IsStuck {m} i s (take k t j q h w o e) calm =
    moved m i k t (running j) _ s h (Wants-awake t w) refl refl refl
Move-IsStuck {m} i s (break k t h w o e d) calm =
    moved m i k t stopped _ s h (Wants-awake t w) refl refl refl
Move-IsStuck {m} i s (look k t h w o e d) calm =
    moved m i k t deciding _ s h (Wants-awake t w) refl refl refl
Move-IsStuck {m} i s (block k h) calm = record {
  asleep = elim (Bool-cases (k == i)) [
    | inl here_ ↦
        let e = ==→eq k i here_ in
        rw e (get_elem?-set_self m.threads i sleeping (get_elem?-lt m.threads i sleeping s.asleep))
    | inr there ↦ get_elem?-set_ne m.threads k i sleeping (==→ne k i there) ∙ s.asleep
  ];
  waits = s.waits;
  quiet = s.quiet;
}
Move-IsStuck {m} i s (stir k h) calm =
    let apart : (k == i) ≡ false = ground (arith, calm) in
    record {
      asleep = get_elem?-set_ne m.threads k i waking (==→ne k i apart) ∙ s.asleep;
      waits = s.waits;
      quiet = s.quiet;
    }
Move-IsStuck {m} i s (finish k j h) calm =
    moved m i k (running j) testing _ s h (λ z. ground (arith, z)) refl refl refl
Move-IsStuck i s (flag w o) calm = absurd (ground (arith, s.waits, w))
Move-IsStuck i s (notify_all w) calm = absurd (ground (arith, s.waits, w))
Move-IsStuck {m} i s (join w all) calm = absurd (asleep-not-AllLeft m.threads i s.asleep all)

Moves-IsStuck :
    {m n : Monitor} (i : ℕ) → IsStuck i m → (r : Moves m n) → stirs i r ≡ 0 → IsStuck i n
unfolding stirs
Moves-IsStuck i s here calm = s
Moves-IsStuck i s (next r v) calm =
    Move-IsStuck i (Moves-IsStuck i s r (omega arith)) v (omega arith)

-- A notification is lost. Let worker `i` have found the queue empty and `shutdown_` not set, and be about to block,
-- with no call of the manager in progress. The destructor can then set the flag and notify before it blocks; and in
-- every run from there in which worker `i` does not wake spuriously, which C++ allows but does not promise, worker
-- `i` sleeps and the destructor has not returned, whatever the workers do and however the others wake.
pub lost_wakeup :
    (m n : Monitor) (i : ℕ)
    → get_elem? m.threads i ≡ some deciding
    → m.stage ≡ working
    → m.signals ≡ 0
    → (r : Moves (missed m i) n) → stirs i r ≡ 0
    → Moves m (missed m i) × (get_elem? n.threads i ≡ some sleeping) × (n.stage ≡ joining)
unfolding wake
lost_wakeup m n i h w quiet r calm =
    let awake = get_elem?-wake_all m.threads i deciding h in
    let lt = get_elem?-lt (wake_all m.threads) i deciding awake in
    let s : IsStuck i (missed m i) = record {
      asleep = get_elem?-set_self (wake_all m.threads) i sleeping lt;
      waits = refl;
      quiet = quiet;
    } in
    let after = Moves-IsStuck i s r calm in
    (
      next (next (next here (flag w quiet)) (notify_all refl)) (block i awake),
      after.asleep,
      after.waits,
    )
