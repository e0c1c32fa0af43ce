-- ===== src/Tests/Queues.antt =====
-- Migrations in the queue of a pool with one worker.
use gpu_vmm.Prelude.{◌+◌, ◌≡◌, refl, [], ◌∷◌, length}
use gpu_vmm.Migration.Workers.{
  Job, to_gpu, to_cpu, Pool, create, testing, busy, Reach, WaitReturns, AllStopped,
}
use gpu_vmm.Migration.Conservation.{wait-started, wait_too_early, jobs_dropped}
use gpu_vmm.Tests.Ranges.{one_page}

abbrev pub job : Job
job = to_gpu 7 4096 8192

abbrev taken : Pool
taken = (wait_too_early one_page [] job).0

wait-started_example :
    (taken.started ≡ taken.submitted)
    × (length taken.submitted ≡ length taken.finished + busy taken.workers)
unfolding busy
wait-started_example =
    wait-started one_page (testing ∷ []) taken refl (wait_too_early one_page [] job).1
      (wait_too_early one_page [] job).2

wait_too_early_example :
    (p : Pool) × Reach (create one_page (testing ∷ [])) p
    × WaitReturns p
    × (p.submitted ≡ job ∷ [])
    × (p.finished ≡ [])
    × (p.table ≡ one_page)
wait_too_early_example = wait_too_early one_page [] job

jobs_dropped_example :
    (p : Pool) × Reach (create one_page (testing ∷ [])) p
    × AllStopped p.workers
    × (p.submitted ≡ job ∷ to_cpu 7 8192 4096 ∷ [])
    × (p.finished ≡ [])
    × (p.queue ≡ job ∷ to_cpu 7 8192 4096 ∷ [])
jobs_dropped_example = jobs_dropped one_page (job ∷ to_cpu 7 8192 4096 ∷ [])
