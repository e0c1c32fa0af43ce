-- ===== src/Benchmark/Early.antt =====
-- The benchmarks on a manager that is not initialized.
use gpu_vmm.Prelude.{ℕ, ◌*◌, ◌≡◌, ◌≢◌, refl, ◌∙◌, ap, false, Option, some, ◌==◌, arith, Returns, ok}
use gpu_vmm.Common.Counters.{PerfCounters}
use gpu_vmm.PageAllocator
use gpu_vmm.PageAllocator.{with_pools}
use gpu_vmm.Vm.Session.Start.{started}
use gpu_vmm.Tlb.View
use gpu_vmm.Vm.State.{PageReplacementPolicy, Vm}
use gpu_vmm.Vm.Allocate
use gpu_vmm.Vm.Allocate.First.{allocate_first}
use gpu_vmm.Vm.Lifecycle.{
  Manager, running, stopped, initialize, build, assemble, allocator_config, tlb_config, allocate,
  get_perf_counters,
}
use gpu_vmm.Benchmark.{
  Machine, BenchmarkResult, null, begin, bench_config, bench_random_page_access,
  bench_sequential_access, bench_working_set_overflow,
}

-- `initialize` of a stopped manager makes one that has given out no page number.
initialize-fresh :
    {W : Type 0} (k : Machine W) (c : PerfCounters) (gpu_memory : ℕ)
    (policy : PageReplacementPolicy)
    → k.malloc gpu_memory ≢ 0
    → Returns
        (initialize k.malloc
          (record (k.process) { counters = c })
          (stopped c)
          (bench_config gpu_memory policy))
        λ m. (s : Vm) × (m ≡ running s) × (s.next_vpn ≡ 0)
unfolding initialize build assemble allocator_config tlb_config bench_config
    PageAllocator.initialize PageAllocator.create
initialize-fresh k c gpu_memory policy block =
    let (tlb, made, _) =
      View.initialize_lem (record { tlb_size = 1024; associativity = 8 }) (omega arith)
        (omega arith) in
    let there : (k.malloc gpu_memory == 0) ≡ false = ground arith in
    let config = bench_config gpu_memory policy in
    let allocator =
      with_pools (k.malloc gpu_memory) (PageAllocator.create (allocator_config config)) in
    let s = started (record (k.process) { counters = c }) config allocator tlb in
    (running s, rw there (rw made), (s, refl, refl))

-- A result with nothing but its sizes.
abbrev pub sized : {W : Type 0} → BenchmarkResult W → ℕ → ℕ → BenchmarkResult W
sized before working_set_size gpu_memory = record before {
  working_set_size = working_set_size;
  gpu_memory = gpu_memory;
}

pub record IsUnmeasured {W : Type 0} (before : BenchmarkResult W) (working_set_size gpu_memory : ℕ)
    (r : Manager × Option (BenchmarkResult W)) : Type 0 where
  pub manager : Vm
  pub runs : r.0 ≡ running manager
  pub given_back : r.1 ≡ some (sized before working_set_size gpu_memory)

module _ {W : Type 0} (k : Machine W) (c : PerfCounters) (gpu_memory : ℕ)
    (policy : PageReplacementPolicy) (block : k.malloc gpu_memory ≢ 0) where
  begin-null :
      (working_set_size : ℕ)
      → (u : Vm) × (begin k (stopped c) (bench_config gpu_memory policy) working_set_size
          ≡ ok (running u, null, 0))
  unfolding begin allocate get_perf_counters
  begin-null working_set_size =
      let (m, made, (s, at_s, fresh)) = initialize-fresh k c gpu_memory policy block in
      let first = allocate_first k.world s working_set_size false fresh in
      ((Allocate.allocate k.world s working_set_size false).0, rw (made ∙ ap ok at_s) (rw first))

-- On a manager that is stopped no benchmark runs. If `malloc` gives the pools, each of the three ends without a fault
-- right after its allocation, with only the two sizes of its result set and every other field as it was before, and
-- leaves the manager running.
pub benchmarks_early :
    {W : Type 0} (k : Machine W) (before : BenchmarkResult W) (c : PerfCounters)
    (working_set_size num_passes num_accesses gpu_memory_limit : ℕ)
    → k.malloc gpu_memory_limit ≢ 0
    → k.malloc (4 * 1024 * 1024 * 1024) ≢ 0
    → k.malloc (512 * 1024 * 1024) ≢ 0
    → (Returns
        (bench_random_page_access k before
          (stopped c)
          working_set_size
          num_accesses
          gpu_memory_limit)
        (IsUnmeasured before working_set_size gpu_memory_limit))
      × (Returns
          (bench_sequential_access k before (stopped c) working_set_size num_passes)
          (IsUnmeasured before working_set_size (4 * 1024 * 1024 * 1024)))
      × (Returns
          (bench_working_set_overflow k before (stopped c) working_set_size)
          (IsUnmeasured before working_set_size (512 * 1024 * 1024)))
unfolding bench_random_page_access bench_sequential_access bench_working_set_overflow
benchmarks_early k before c ws num_passes num_accesses limit random sequential overflow =
    let (u, at_u) = begin-null k c limit PageReplacementPolicy.lru random ws in
    let (t, at_t) =
      begin-null k c (4 * 1024 * 1024 * 1024) PageReplacementPolicy.lru sequential ws in
    let (q, at_q) = begin-null k c (512 * 1024 * 1024) PageReplacementPolicy.clock overflow ws in
    (
      (
        (running u, some (sized before ws limit)),
        rw at_u,
        (record { manager = u; runs = refl; given_back = refl }),
      ),
      (
        (running t, some (sized before ws (4 * 1024 * 1024 * 1024))),
        rw at_t,
        (record { manager = t; runs = refl; given_back = refl }),
      ),
      (
        (running q, some (sized before ws (512 * 1024 * 1024))),
        rw at_q,
        (record { manager = q; runs = refl; given_back = refl }),
      ),
    )
