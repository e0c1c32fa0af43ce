-- ===== src/Migration/Monitor.antt =====
-- The queue at the grain of its mutex and its condition variable: who holds `queue_mutex_`, who sleeps in
-- `queue_cv_.wait`, and how far the destructor is. A worker may wake without a notification, as C++ allows.
use gpu_vmm.Prelude.{
  ℕ, ◌+◌, ◌≡◌, Bool, true, false, Option, none, some, List, [], ◌∷◌, ◌++◌, set, get_elem?,
}
use gpu_vmm.Migration.Workers.{Job}

-- Where a worker is. `locking` has passed the test of `shutdown_` and wants the mutex, as does `waking` after a
-- notification; `deciding` holds it and has found the predicate of the wait false; `sleeping` is blocked in the wait.
pub data Thread : Type 0 where
  testing locking deciding sleeping waking stopped : Thread
  running : Job → Thread

-- The destructor has not begun, has set `shutdown_`, has notified and joins, or has returned.
pub data Stage : Type 0 where
  working flagged joining done : Stage

-- `signals` counts the submitters between their region under the mutex and their `notify_one`.
pub record Monitor : Type 0 where
  pub queue : List Job
  pub threads : List Thread
  pub owner : Option ℕ
  pub shutdown : Bool
  pub signals : ℕ
  pub stage : Stage

-- `notify_all`
unfoldable pub wake : Thread → Thread
wake sleeping = waking
wake t = t

unfoldable pub wake_all : List Thread → List Thread
unfolding wake
wake_all [] = []
wake_all (t ∷ ts) = wake t ∷ wake_all ts

-- The worker wants the mutex.
pub data Wants : Thread → Type 0 where
  first : Wants locking
  again : Wants waking

-- Every worker has left its loop.
abbrev pub AllLeft : List Thread → Type 0
AllLeft [] = Unit {0}
AllLeft (t ∷ ts) = (t ≡ stopped) × AllLeft ts

pub data Move (m : Monitor) : Monitor → Type 0 where
  -- `async_migrate_*`: the push under the mutex, then `notify_one`, which wakes one sleeper if there is one.
  submit :
      (j : Job)
      → m.stage ≡ working
      → m.owner ≡ none
      → Move m (record m { queue = m.queue ++ j ∷ []; signals = m.signals + 1 })
  notify_one :
      (i n : ℕ)
      → m.signals ≡ n + 1
      → get_elem? m.threads i ≡ some sleeping
      → Move m (record m { threads = set m.threads i waking; signals = n })
  notify_none :
      (n : ℕ)
      → m.signals ≡ n + 1
      → ((i : ℕ) → get_elem? m.threads i ≡ some sleeping → ⊥)
      → Move m (record m { signals = n })
  -- `while (!shutdown_)`
  enter :
      (i : ℕ)
      → get_elem? m.threads i ≡ some testing
      → m.shutdown ≡ false
      → Move m (record m { threads = set m.threads i locking })
  leave :
      (i : ℕ)
      → get_elem? m.threads i ≡ some testing
      → m.shutdown ≡ true
      → Move m (record m { threads = set m.threads i stopped })
  -- The mutex is taken and the predicate holds: a job is popped, or the loop is left; the mutex is given back.
  take :
      (i : ℕ) (t : Thread) (j : Job) (q : List Job)
      → get_elem? m.threads i ≡ some t
      → Wants t
      → m.owner ≡ none
      → m.queue ≡ j ∷ q
      → Move m (record m { queue = q; threads = set m.threads i (running j) })
  break :
      (i : ℕ) (t : Thread)
      → get_elem? m.threads i ≡ some t
      → Wants t
      → m.owner ≡ none
      → m.queue ≡ []
      → m.shutdown ≡ true
      → Move m (record m { threads = set m.threads i stopped })
  -- The mutex is taken and the predicate is false; then the wait gives the mutex back and blocks, as one action.
  look :
      (i : ℕ) (t : Thread)
      → get_elem? m.threads i ≡ some t
      → Wants t
      → m.owner ≡ none
      → m.queue ≡ []
      → m.shutdown ≡ false
      → Move m (record m { threads = set m.threads i deciding; owner = some i })
  block :
      (i : ℕ)
      → get_elem? m.threads i ≡ some deciding
      → Move m (record m { threads = set m.threads i sleeping; owner = none })
  -- A spurious wake-up.
  stir :
      (i : ℕ)
      → get_elem? m.threads i ≡ some sleeping
      → Move m (record m { threads = set m.threads i waking })
  finish :
      (i : ℕ) (j : Job)
      → get_elem? m.threads i ≡ some (running j)
      → Move m (record m { threads = set m.threads i testing })
  -- `~MigrationManager`: `shutdown_ = true` without the mutex, `notify_all`, and the joins.
  flag : m.stage ≡ working → m.signals ≡ 0 → Move m (record m { shutdown = true; stage = flagged })
  notify_all :
      m.stage ≡ flagged → Move m (record m { threads = wake_all m.threads; stage = joining })
  join : m.stage ≡ joining → AllLeft m.threads → Move m (record m { stage = done })

pub data Moves (m : Monitor) : Monitor → Type 0 where
  here : Moves m m
  next : {n p : Monitor} → Moves m n → Move n p → Moves m p
