-- ===== src/Tests/Devices.antt =====
-- Objects, kernels, checksums, and a queue that drains.
use gpu_vmm.Prelude.{
  ok, ℕ, ◌^◌, ◌<◌, List, Run, zero, suc, ◌+◌, ◌*◌, ◌≤◌, ◌≡◌, ◌≢◌, ◌⊎◌, refl, true, false, some, [],
  ◌∷◌, arith, length, get_elem?, Returns,
}
use gpu_vmm.Common.Words.{u32_mod}
use gpu_vmm.Prelude.Assoc.{find}
use gpu_vmm.Common.Address.{vpn_to_vaddr}
use gpu_vmm.PageTable.{lookup_entry, allocate_vpn_range}
use gpu_vmm.PageAllocator.{allocate_cpu_page, allocate_gpu_page}
use gpu_vmm.PageAllocator.Bitmap.{first_free}
use gpu_vmm.Vm.State.{Vm}
use gpu_vmm.Vm.Lifecycle.{Manager}
use gpu_vmm.Vm.Ownership.Valid.{IsValid}
use gpu_vmm.Migration.Workers.{
  Worker, running, run_job, testing, waiting, Pool, create, submit, enter, leave, take, break,
  finish, shut, Reach, here, next, busy,
}
use gpu_vmm.Migration.Drain.{is_work, Works, idle, work, IsAlive, IsStuck, workers-drain}
use mathlib.Core.List.Perm
use gpu_vmm.Device.{grid_size}
use gpu_vmm.Device.Race.{Launch, page_index, act, step, kernel_random_access}
use gpu_vmm.Device.Stores.{stores, all_fresh}
use gpu_vmm.Device.Updates.{kernel_random_access_bounds}
use gpu_vmm.Device.Reduce.{kernel_checksum}
use gpu_vmm.Device.Totals.{sum, grid_blocks}
use gpu_vmm.Device.Sums.{kernel_checksum_lem}
use gpu_vmm.DeviceMapped.{DeviceMapped, construct, destroy}
use gpu_vmm.DeviceMapped.Raii.{destroy-construct}
use gpu_vmm.Device.{
  read_element, write_element, sequential_element, kernel_read_pages, kernel_write_pages,
  kernel_sequential_access, grid_size, threads, launch,
}
use gpu_vmm.Device.Elements.{each}
use gpu_vmm.Device.Grid.{launch_lem, launch_beyond}
use gpu_vmm.Device.Checksum.{compute_checksum, compute_checksum-one_byte}
use gpu_vmm.Tests.Managers.{world, on_cpu, on_cpu-IsValid}
use gpu_vmm.Tests.Queues.{job}
use gpu_vmm.Tests.Ranges.{one_page}

compute_checksum-one_byte_example :
    compute_checksum (1 ∷ 2 ∷ 3 ∷ []) ≢ compute_checksum (1 ∷ 9 ∷ 3 ∷ [])
compute_checksum-one_byte_example =
    compute_checksum-one_byte (1 ∷ []) (3 ∷ []) 2 9 (omega arith) (omega arith) (omega arith)

launch_lem_example :
    (launch (kernel_read_pages 2) (threads (grid_size 2)) (2000000 ∷ 5 ∷ [])
      ≡ ok (each read_element 2 0 (2000000 ∷ 5 ∷ [])))
    × (launch (kernel_write_pages 7 2) (threads (grid_size 2)) (2000000 ∷ 5 ∷ [])
        ≡ ok (each (write_element 7) 2 0 (2000000 ∷ 5 ∷ [])))
    × (launch (kernel_sequential_access 3 2) (threads (grid_size 2)) (2000000 ∷ 5 ∷ [])
        ≡ ok (each (sequential_element 3) 2 0 (2000000 ∷ 5 ∷ [])))
launch_lem_example =
    launch_lem 2 7 3 (threads (grid_size 2)) (2000000 ∷ 5 ∷ []) (omega arith) (λ i. refl)

-- An array of as many fives.
fives : ℕ → List ℕ
fives zero = []
fives (suc n) = 5 ∷ fives n

get_elem?-fives : (n i : ℕ) → i < n → get_elem? (fives n) i ≡ some 5
unfolding fives
get_elem?-fives zero i h = absurd (omega arith)
get_elem?-fives (suc n) zero h = refl
get_elem?-fives (suc n) (suc i) h = get_elem?-fives n i (omega arith)

launch_beyond_example :
    Returns
      (launch
        (kernel_write_pages 7 (length (fives (u32_mod + 1))))
        (threads (2 ^ 24 + 1))
        (fives (u32_mod + 1)))
      λ after. get_elem? after u32_mod ≡ some 5
launch_beyond_example =
    launch_beyond 7 (2 ^ 24 + 1) u32_mod 5 (fives (u32_mod + 1)) (omega arith)
      (get_elem?-fives (u32_mod + 1) u32_mod (omega arith))

-- One job is in the queue of one worker.
abbrev queued : Pool
queued = record {
  table = one_page;
  queue = job ∷ [];
  workers = testing ∷ [];
  shutdown = false;
  submitted = job ∷ [];
  started = [];
  finished = [];
}

-- The worker has done it and waits for the next.
abbrev drained : Pool
drained = record queued {
  table = run_job 0 5 one_page job;
  queue = [];
  workers = waiting ∷ [];
  started = job ∷ [];
  finished = job ∷ [];
}

reaches_queued : Reach (create one_page (testing ∷ [])) queued
unfolding create
reaches_queued = next here (submit job)

queued-IsAlive : IsAlive queued
queued-IsAlive = record {
  on = refl;
  index = 0;
  worker = testing;
  at_index = refl;
  looping = λ z. ground (arith, z);
}

works : Works queued drained 4
unfolding is_work
works =
    work
      (work (work (work idle (enter 0 refl refl) refl) (take 0 job [] refl refl) refl)
        (finish 0 job 0 5 refl) refl)
      (enter 0 refl refl) refl

waits_only : (i : ℕ) (w : Worker) → get_elem? drained.workers i ≡ some w → w ≡ waiting
waits_only zero w h = ground arith
waits_only (suc i) w h = ground arith

drained-IsStuck : IsStuck drained
unfolding is_work
drained-IsStuck q (submit j) h = ground (arith, h)
drained-IsStuck q shut h = ground (arith, h)
drained-IsStuck q (enter i w e) h = let z = waits_only i testing w in ground (arith, z)
drained-IsStuck q (leave i w e) h = let z = waits_only i testing w in ground (arith, z)
drained-IsStuck q (take i j l w e) h = let z : [] ≡ j ∷ l = e in ground (arith, z)
drained-IsStuck q (break i w e s) h = let z : false ≡ true = s in ground (arith, z)
drained-IsStuck q (finish i j start stop w) h =
    let z = waits_only i (running j) w in ground (arith, z)

workers-drain_example :
    (4 ≤ 3 * length queued.queue + 3 * length queued.workers)
    × (drained.queue ≡ [])
    × (drained.started ≡ drained.submitted)
    × (length drained.finished ≡ length drained.submitted)
unfolding busy
workers-drain_example =
    workers-drain one_page (testing ∷ []) queued drained 4 refl reaches_queued queued-IsAlive works
      drained-IsStuck

-- The first page that a constructor gets on a manager with page 5.
abbrev object : DeviceMapped
object = record { ptr = 96; count = 4 }

constructed : (construct world (Manager.running on_cpu) 4 4 true).1 ≡ some object
unfolding construct allocate_vpn_range find allocate_cpu_page first_free vpn_to_vaddr
    allocate_gpu_page
constructed = refl

destroy-construct_example :
    (object.ptr ≢ 0)
    × (object.count ≡ 4)
    × Returns (destroy (construct world (Manager.running on_cpu) 4 4 true).0 object) λ m.
      (u : Vm) × (m ≡ Manager.running u)
      × IsValid u
      × ((v : ℕ) → lookup_entry u.page_table v ≡ lookup_entry on_cpu.page_table v)
destroy-construct_example =
    destroy-construct world on_cpu 4 4 true object on_cpu-IsValid (omega arith) constructed

kernel_checksum_lem_example :
    kernel_checksum (λ b o lane. 77) 3 (5 ∷ 7 ∷ 9 ∷ []) (0 ∷ []) 100 ≡ ok 121
unfolding sum grid_blocks grid_size
kernel_checksum_lem_example =
    kernel_checksum_lem (λ b o lane. 77) 100 (5 ∷ 7 ∷ 9 ∷ []) (0 ∷ []) (omega arith) (omega arith)
      Perm.rfl

-- Two threads add to element 0 at once.
abbrev both_at_once : Run Launch
both_at_once =
    kernel_random_access (2 ∷ 4 ∷ []) 2 (0 ∷ 1 ∷ 0 ∷ 1 ∷ [])
      (record { pages = 50 ∷ 60 ∷ []; threads = all_fresh 2 })

one_increment : Returns both_at_once λ after. get_elem? after.pages 0 ≡ some 51
unfolding kernel_random_access step act page_index all_fresh
one_increment = (_, refl, refl)

kernel_random_access_bounds_example : Returns both_at_once λ after.
    (val : ℕ) × (get_elem? after.pages 0 ≡ some val)
    × (50 ≤ val)
    × (val ≤ 50 + stores (2 ∷ 4 ∷ []) 2 0 0 after.threads)
    × ((stores (2 ∷ 4 ∷ []) 2 0 0 after.threads ≡ 0) ⊎ (51 ≤ val))
kernel_random_access_bounds_example =
    kernel_random_access_bounds (2 ∷ 4 ∷ []) (50 ∷ 60 ∷ []) (0 ∷ 1 ∷ 0 ∷ 1 ∷ []) 2 0 50
      (omega arith) (omega arith) refl (omega arith)
