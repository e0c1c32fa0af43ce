-- ===== src/Migration/Workers.antt =====
-- The queue of `MigrationManager` and its worker threads, as a step relation. A step is a region under
-- `queue_mutex_`, the test of `shutdown_` at the top of the loop, or a whole job.
use gpu_vmm.Prelude.{ℕ, ◌+◌, ◌≡◌, Bool, true, false, some, List, [], ◌∷◌, ◌++◌, set, get_elem?}
use gpu_vmm.PageTable.{PageTable}
use gpu_vmm.Migration.{migrate_cpu_to_gpu, migrate_gpu_to_cpu}

-- What the closures of `async_migrate_cpu_to_gpu` and `async_migrate_gpu_to_cpu` capture.
pub data Job : Type 0 where
  to_gpu to_cpu : ℕ → ℕ → ℕ → Job

-- A worker tests `shutdown_`, waits for the queue, runs a job, or has left its loop.
pub data Worker : Type 0 where
  testing waiting stopped : Worker
  running : Job → Worker

-- `submitted`, `started` and `finished` are histories: the jobs pushed, popped and done, in order.
pub record Pool : Type 0 where
  pub table : PageTable
  pub queue : List Job
  pub workers : List Worker
  pub shutdown : Bool
  pub submitted : List Job
  pub started : List Job
  pub finished : List Job

unfoldable pub run_job : ℕ → ℕ → PageTable → Job → PageTable
unfolding migrate_cpu_to_gpu migrate_gpu_to_cpu
run_job start stop t (to_gpu vpn cpu_addr gpu_addr) =
    (migrate_cpu_to_gpu start stop t vpn cpu_addr gpu_addr).0
run_job start stop t (to_cpu vpn gpu_addr cpu_addr) =
    (migrate_gpu_to_cpu start stop t vpn gpu_addr cpu_addr).0

-- The constructor with `async_migration`.
unfoldable pub create : PageTable → List Worker → Pool
create t workers = record {
  table = t;
  queue = [];
  workers = workers;
  shutdown = false;
  submitted = [];
  started = [];
  finished = [];
}

pub data Step (p : Pool) : Pool → Type 0 where
  -- `async_migrate_cpu_to_gpu`, `async_migrate_gpu_to_cpu`
  submit :
      (j : Job) → Step p (record p { queue = p.queue ++ j ∷ []; submitted = p.submitted ++ j ∷ [] })
  -- `while (!shutdown_)`
  enter :
      (i : ℕ)
      → get_elem? p.workers i ≡ some testing
      → p.shutdown ≡ false
      → Step p (record p { workers = set p.workers i waiting })
  leave :
      (i : ℕ)
      → get_elem? p.workers i ≡ some testing
      → p.shutdown ≡ true
      → Step p (record p { workers = set p.workers i stopped })
  -- The wait ends with a job in the queue, whatever `shutdown_` is.
  take :
      (i : ℕ) (j : Job) (q : List Job)
      → get_elem? p.workers i ≡ some waiting
      → p.queue ≡ j ∷ q
      → Step p (record p {
        queue = q;
        workers = set p.workers i (running j);
        started = p.started ++ j ∷ [];
      })
  -- The wait ends with the queue empty, by `shutdown_`.
  break :
      (i : ℕ)
      → get_elem? p.workers i ≡ some waiting
      → p.queue ≡ []
      → p.shutdown ≡ true
      → Step p (record p { workers = set p.workers i stopped })
  finish :
      (i : ℕ) (j : Job) (start stop : ℕ)
      → get_elem? p.workers i ≡ some (running j)
      → Step p (record p {
        table = run_job start stop p.table j;
        workers = set p.workers i testing;
        finished = p.finished ++ j ∷ [];
      })
  -- `shutdown_ = true` in the destructor
  shut : Step p (record p { shutdown = true })

pub data Reach (p : Pool) : Pool → Type 0 where
  here : Reach p p
  next : {q r : Pool} → Reach p q → Step q r → Reach p r

-- `wait_for_migrations` returns when it sees the queue empty.
abbrev pub WaitReturns : Pool → Type 0
WaitReturns p = p.queue ≡ []

-- `VirtualMemoryManager::sync_all_migrations` returns with `wait_for_migrations`.
abbrev pub SyncReturns : Pool → Type 0
SyncReturns p = WaitReturns p

-- The destructor has joined every worker.
abbrev pub AllStopped : List Worker → Type 0
AllStopped [] = Unit {0}
AllStopped (w ∷ ws) = (w ≡ stopped) × AllStopped ws

unfoldable pub is_running : Worker → ℕ
is_running testing = 0
is_running waiting = 0
is_running stopped = 0
is_running (running _) = 1

-- The number of workers with a job in hand.
unfoldable pub busy : List Worker → ℕ
unfolding is_running
busy [] = 0
busy (w ∷ ws) = is_running w + busy ws
