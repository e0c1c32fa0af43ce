-- ===== src/Benchmark.antt =====
-- src/bench/benchmark_app.cpp, without its printing and its file. `std::chrono`, `rand`, the distribution over the
-- pages and the arithmetic on `double` are not the program's: they are parameters.
pub mod Touches
pub mod Measured
pub mod Early
use gpu_vmm.Prelude.{
  ℕ, zero, suc, ◌+◌, ◌*◌, ◌/◌, ◌%◌, ◌≡◌, Bool, true, false, Option, none, some, List, [], ◌∷◌,
  if◌then◌else◌, ◌==◌, ltb, Run, ok, fault, ◌>>=◌,
}
use gpu_vmm.Common.Words.{u64_add, u64_mul}
use gpu_vmm.Common.Counters.{PerfCounters}
use gpu_vmm.Vm.State.{World, PageReplacementPolicy, VmConfig, Vm}
use gpu_vmm.Vm.Access.{touch_page}
use gpu_vmm.Vm.Fault.{prefetch_to_gpu}
use gpu_vmm.Vm.Lifecycle.{
  Process, Manager, running, stopped, failed, initialize, shutdown, when_running, allocate, free,
  get_perf_counters, reset_counters,
}

-- What a benchmark takes from outside: the world of the manager, `malloc`, the process, the results of `rand` and of
-- `page_dist`, the microseconds between the two readings of the clock, and `x * 1e6 / y` as a `double`.
pub record Machine (W : Type 0) : Type 0 where
  pub world : World
  pub malloc : ℕ → ℕ
  pub process : Process
  pub rand : ℕ → ℕ
  pub page_dist : ℕ → ℕ
  pub elapsed_us : ℕ
  pub per_second : ℕ → ℕ → W

pub record BenchmarkResult (W : Type 0) : Type 0 where
  pub working_set_size : ℕ
  pub gpu_memory : ℕ
  pub page_faults : ℕ
  pub migrations : ℕ
  pub migrated_bytes : ℕ
  pub total_time_us : ℕ
  pub throughput_pages_per_sec : W
  pub fault_rate_per_second : W

-- `VMConfig config;` and the assignments that the three benchmarks make.
unfoldable pub bench_config : ℕ → PageReplacementPolicy → VmConfig
bench_config gpu_memory policy = record {
  page_size = 64 * 1024;
  virtual_address_space = 256 * 1024 * 1024 * 1024;
  gpu_memory = gpu_memory;
  tlb_size = 1024;
  tlb_associativity = 8;
  replacement_policy = policy;
  use_pinned_memory = true;
  use_gpu_simulator = true;
  enable_prefetch = true;
}

-- A benchmark that `initialize` throws out of gives no result; one whose allocation is null gives its `result` early.
pub data Start : Type 0 where
  threw null given : Start

module _ {W : Type 0} (k : Machine W) where
  -- `vm.initialize(config)` and `vm.allocate(working_set_size)`.
  unfoldable pub begin : Manager → VmConfig → ℕ → Run (Manager × Start × ℕ)
  unfolding initialize allocate get_perf_counters
  begin m config working_set_size = do
    m₁ ← initialize k.malloc (record (k.process) { counters = get_perf_counters m }) m config
    elim m₁ [
      | failed c t ↦ ok (failed c t, threw, 0)
      | stopped c ↦ ok (stopped c, null, 0)
      | running s ↦
          let r = allocate k.world (running s) working_set_size false in
          ok (r.0, (if r.1 == 0 then null else given), r.1)
    ]

  -- `vm.touch_page(address(i), is_write(i))` for the `i` of a loop: the rounds left, and `i`.
  unfoldable pub touch_loop : (ℕ → ℕ) → (ℕ → Bool) → ℕ → ℕ → Manager → Run Manager
  unfolding when_running touch_page
  touch_loop address is_write zero i m = ok m
  touch_loop address is_write (suc left) i m = do
    m₁ ← when_running (λ s. touch_page k.world s (address i) (is_write i)) m
    touch_loop address is_write left (i + 1) m₁

  -- `(uint8_t *)vaddr + page * config.page_size`
  unfoldable pub page_address : ℕ → ℕ → ℕ
  page_address vaddr page = u64_add vaddr (u64_mul page (64 * 1024))

  -- The counters as the benchmarks read them.
  unfoldable pub measure : BenchmarkResult W → PerfCounters → BenchmarkResult W
  measure result perf = record result {
    page_faults = perf.total_page_faults;
    migrations = u64_add perf.cpu_to_gpu_migrations perf.gpu_to_cpu_migrations;
    migrated_bytes = perf.total_bytes_migrated;
    total_time_us = k.elapsed_us;
  }

  -- `vm.free(vaddr); vm.shutdown();`
  unfoldable pub end_ : Manager → ℕ → Run Manager
  unfolding free shutdown
  end_ m vaddr = do m₁ ← free m vaddr; ok (shutdown m₁)

  -- `num_pages`. A distribution over no pages is undefined, as is the remainder by 0 before it.
  unfoldable pub pages_to_draw : ℕ → Run ℕ
  pages_to_draw working_set_size =
      if ltb working_set_size (64 * 1024) then fault else ok (working_set_size / (64 * 1024))

  -- `result` has whatever its fields held before: only the sizes are set.
  unfoldable pub bench_random_page_access :
      BenchmarkResult W → Manager → ℕ → ℕ → ℕ → Run (Manager × Option (BenchmarkResult W))
  unfolding begin touch_loop page_address pages_to_draw measure end_ bench_config reset_counters
  bench_random_page_access before m working_set_size num_accesses gpu_memory_limit =
      let result = record before {
        working_set_size = working_set_size;
        gpu_memory = gpu_memory_limit;
      } in
      let warm_up = (if ltb (num_accesses / 10) 1000 then num_accesses / 10 else 1000) in
      do
        r ← begin m (bench_config gpu_memory_limit PageReplacementPolicy.lru) working_set_size
        let vaddr = r.2
        elim r.1 [
          | threw ↦ ok (r.0, none)
          | null ↦ ok (r.0, some result)
          | given ↦ do
            m₂ ←
                touch_loop (λ i. u64_add vaddr (k.rand i % working_set_size)) (λ i. false) warm_up 0
                  r.0
            num_pages ← pages_to_draw working_set_size
            m₃ ←
                touch_loop (λ i. page_address vaddr (k.page_dist i)) (λ i. i % 2 == 0) num_accesses
                  0 (reset_counters m₂)
            let measured = measure result (get_perf_counters m₃)
            m₄ ← end_ m₃ vaddr
            ok (
              m₄,
              some (record measured {
                throughput_pages_per_sec = k.per_second num_accesses k.elapsed_us;
                fault_rate_per_second = k.per_second measured.page_faults k.elapsed_us;
              }),
            )
        ]

  -- The passes over the pages: the passes left.
  unfoldable pub pass_loop : ℕ → ℕ → ℕ → Manager → Run Manager
  unfolding touch_loop page_address
  pass_loop vaddr num_pages zero m = ok m
  pass_loop vaddr num_pages (suc left) m = do
    m₁ ← touch_loop (page_address vaddr) (λ page. false) num_pages 0 m
    pass_loop vaddr num_pages left m₁

  unfoldable pub bench_sequential_access :
      BenchmarkResult W → Manager → ℕ → ℕ → Run (Manager × Option (BenchmarkResult W))
  unfolding begin pass_loop measure end_ bench_config reset_counters
  bench_sequential_access before m working_set_size num_passes =
      let gpu_memory = 4 * 1024 * 1024 * 1024 in
      let result = record before { working_set_size = working_set_size; gpu_memory = gpu_memory } in
      let num_pages = working_set_size / (64 * 1024) in
      do
        r ← begin m (bench_config gpu_memory PageReplacementPolicy.lru) working_set_size
        let vaddr = r.2
        elim r.1 [
          | threw ↦ ok (r.0, none)
          | null ↦ ok (r.0, some result)
          | given ↦ do
            m₂ ← pass_loop vaddr num_pages num_passes (reset_counters r.0)
            let measured = measure result (get_perf_counters m₂)
            m₃ ← end_ m₂ vaddr
            ok (
              m₃,
              some (record measured {
                throughput_pages_per_sec = k.per_second (u64_mul num_pages num_passes) k.elapsed_us;
                fault_rate_per_second = k.per_second measured.page_faults k.elapsed_us;
              }),
            )
        ]

  -- `vm.prefetch_to_gpu(page_addr)` for the pages: the rounds left, and `i`.
  unfoldable pub prefetch_loop : ℕ → ℕ → ℕ → Manager → Run Manager
  unfolding when_running prefetch_to_gpu page_address
  prefetch_loop vaddr zero i m = ok m
  prefetch_loop vaddr (suc left) i m = do
    m₁ ← when_running (λ s. prefetch_to_gpu k.world s (page_address vaddr i)) m
    prefetch_loop vaddr left (i + 1) m₁

  unfoldable pub bench_working_set_overflow :
      BenchmarkResult W → Manager → ℕ → Run (Manager × Option (BenchmarkResult W))
  unfolding begin prefetch_loop measure end_ bench_config reset_counters
  bench_working_set_overflow before m working_set_size =
      let gpu_memory = 512 * 1024 * 1024 in
      let result = record before { working_set_size = working_set_size; gpu_memory = gpu_memory } in
      let num_pages = working_set_size / (64 * 1024) in
      do
        r ← begin m (bench_config gpu_memory PageReplacementPolicy.clock) working_set_size
        let vaddr = r.2
        elim r.1 [
          | threw ↦ ok (r.0, none)
          | null ↦ ok (r.0, some result)
          | given ↦ do
            m₂ ←
                prefetch_loop vaddr (if ltb num_pages 1000 then num_pages else 1000) 0
                  (reset_counters r.0)
            let measured = measure result (get_perf_counters m₂)
            m₃ ← end_ m₂ vaddr
            ok (
              m₃,
              some (record measured {
                throughput_pages_per_sec = k.per_second 1000 k.elapsed_us;
                fault_rate_per_second = k.per_second (get_perf_counters m₂).evictions k.elapsed_us;
              }),
            )
        ]
