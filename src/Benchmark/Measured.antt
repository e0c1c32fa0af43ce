-- ===== src/Benchmark/Measured.antt =====
-- What the benchmarks measure on a manager that runs.
use native.Mathlib.Nat.{mod-lt}
use gpu_vmm.Prelude.{
  ◌^◌, ℕ, ◌+◌, ◌*◌, ◌/◌, ◌%◌, ◌≤◌, ◌<◌, ◌≡◌, ◌≢◌, refl, sym, ◌∙◌, ap, false, Option, some,
  if◌then◌else◌, ◌==◌, ltb, arith, Returns, ok, ◌>>=◌,
}
use gpu_vmm.Common.Words.{u32_mod, u64_mod, u64_add, u64_mul}
use gpu_vmm.Common.Address.{vaddr_to_vpn, align_to_page}
use gpu_vmm.Common.Counters.{PerfCounters, reset}
use gpu_vmm.Vm.State.{PageReplacementPolicy, Vm}
use gpu_vmm.Vm.Allocate
use gpu_vmm.Vm.Allocate.{pages_of}
use gpu_vmm.Vm.Lifecycle.{
  Manager, running, stopped, shutdown, when_running, free, get_perf_counters, reset_counters,
}
use gpu_vmm.Vm.Ownership.Extends.{Present}
use gpu_vmm.Vm.Ownership.Valid.{IsValid}
use gpu_vmm.Vm.Ownership.Touch.{counted-Keeps}
use gpu_vmm.Vm.Ownership.Allocate.{Allocates}
use gpu_vmm.Vm.Ownership.Free.{free-Frees}
use gpu_vmm.Vm.Ownership.Later.{given_Allocates}
use gpu_vmm.Benchmark.{
  pages_to_draw, Machine, BenchmarkResult, page_address, measure, end_, bench_config,
  bench_random_page_access, bench_sequential_access,
}
use gpu_vmm.Benchmark.Touches.{
  touch_loop-Uncounted, pass_loop-Uncounted, offset-Present, begin-given,
}

pages_of-covers : (bytes : ℕ) → bytes < 2 ^ 47 → bytes ≤ pages_of bytes 65536 * 65536
unfolding pages_of align_to_page
pages_of-covers bytes h = omega arith

pages_of-lt : (bytes page_size : ℕ) → pages_of bytes page_size < u32_mod
unfolding pages_of
pages_of-lt bytes page_size = omega arith

-- The end of a benchmark on a valid manager.
end_-stopped :
    {W : Type 0} (k : Machine W) (s : Vm) (vaddr : ℕ)
    → IsValid s
    → s.next_vpn + u32_mod ≤ u64_mod
    → (c : PerfCounters) × (end_ k (running s) vaddr ≡ ok (stopped c))
unfolding end_ free when_running shutdown
end_-stopped k s vaddr v room =
    let (u, run, _) = free-Frees s vaddr v room in
    (u.perf_counters, ap (λ x. (x >>= λ q. ok (running q)) >>= λ m. ok (shutdown m)) run)

-- The result has measured nothing but the time.
pub record IsIdle {W : Type 0} (k : Machine W) (r : Manager × Option (BenchmarkResult W))
    : Type 0 where
  pub counters : PerfCounters
  pub result : BenchmarkResult W
  pub stopped_with : r.0 ≡ stopped counters
  pub given_back : r.1 ≡ some result
  pub page_faults : result.page_faults ≡ 0
  pub migrations : result.migrations ≡ 0
  pub migrated_bytes : result.migrated_bytes ≡ 0
  pub total_time : result.total_time_us ≡ k.elapsed_us

module _ {W : Type 0} (k : Machine W) (before : BenchmarkResult W) (s : Vm) (v : IsValid s)
    (size : s.config.page_size ≡ 64 * 1024) (room : s.next_vpn + u32_mod < 2 ^ 48)
    (working_set_size : ℕ) (small : working_set_size < 2 ^ 47)
    (nonnull : (Allocate.allocate k.world s working_set_size false).1 ≢ 0) where
  abbrev pages : ℕ
  pages = pages_of working_set_size s.config.page_size

  few : pages < u32_mod
  few = pages_of-lt working_set_size s.config.page_size

  covers : working_set_size ≤ pages * 65536
  covers = rw size (pages_of-covers working_set_size small)

  allocated : Allocates s pages (Allocate.allocate k.world s working_set_size false)
  allocated = given_Allocates k.world s working_set_size false v (omega (arith, few)) nonnull

  nonnull_test : ((Allocate.allocate k.world s working_set_size false).1 == 0) ≡ false
  nonnull_test = ground arith

  within-Present :
      (offset : ℕ)
      → offset < working_set_size
      → let r = Allocate.allocate k.world s working_set_size false in
        Present r.0.page_table (vaddr_to_vpn (u64_add r.1 offset) r.0.config.page_size)
  within-Present offset lt =
      offset-Present s pages (Allocate.allocate k.world s working_set_size false) offset allocated
        size (omega (arith, few)) (omega (arith, covers))

  page-Present :
      (j : ℕ)
      → j < working_set_size / 65536
      → let r = Allocate.allocate k.world s working_set_size false in
        Present r.0.page_table (vaddr_to_vpn (page_address k r.1 j) r.0.config.page_size)
  unfolding page_address
  page-Present j lt =
      let e : u64_mul j 65536 ≡ j * 65536 = omega arith in
      rw e (within-Present (j * 65536) (omega arith))

  -- The manager with its counters reset.
  abbrev cleared : Vm
  cleared = record ((Allocate.allocate k.world s working_set_size false).0) {
    perf_counters = reset;
  }

  -- A result with the counters `c` and these rates.
  abbrev result_with : ℕ → PerfCounters → W → W → BenchmarkResult W
  result_with gpu_memory c throughput fault_rate = record before {
    working_set_size = working_set_size;
    gpu_memory = gpu_memory;
    page_faults = c.total_page_faults;
    migrations = u64_add c.cpu_to_gpu_migrations c.gpu_to_cpu_migrations;
    migrated_bytes = c.total_bytes_migrated;
    total_time_us = k.elapsed_us;
    throughput_pages_per_sec = throughput;
    fault_rate_per_second = fault_rate;
  }

  IsIdle-result :
      (c d : PerfCounters) (gpu_memory : ℕ) (throughput fault_rate : W)
      → c ≡ reset
      → IsIdle k (stopped d, some (result_with gpu_memory c throughput fault_rate))
  unfolding reset
  IsIdle-result c d gpu_memory throughput fault_rate e = record {
    counters = d;
    result = result_with gpu_memory c throughput fault_rate;
    stopped_with = refl;
    given_back = refl;
    page_faults = ap (λ (x : PerfCounters). x.total_page_faults) e;
    migrations =
        ap (λ (x : PerfCounters). u64_add x.cpu_to_gpu_migrations x.gpu_to_cpu_migrations) e;
    migrated_bytes = ap (λ (x : PerfCounters). x.total_bytes_migrated) e;
    total_time = refl;
  }

  sequential-IsIdle :
      (num_passes : ℕ)
      → Returns
          (bench_sequential_access k before (running s) working_set_size num_passes)
          (IsIdle k)
  unfolding bench_sequential_access reset_counters get_perf_counters measure
  sequential-IsIdle num_passes =
      let r = Allocate.allocate k.world s working_set_size false in
      let num_pages = working_set_size / 65536 in
      let begun =
        begin-given k s (bench_config (4 * 1024 * 1024 * 1024) PageReplacementPolicy.lru)
          working_set_size nonnull_test in
      let keeps = counted-Keeps r.0 reset allocated.valid in
      let (m, run, (u, at_u, b)) =
        pass_loop-Uncounted k r.1 num_pages num_passes cleared keeps.valid
          (λ j lt. page-Present j lt) in
      let (c, ended) =
        end_-stopped k u r.1 b.keeps.valid
          (omega (arith, b.keeps.fixed.next_vpn, allocated.next_vpn, few)) in
      let throughput = k.per_second (u64_mul num_pages num_passes) k.elapsed_us in
      let fault_rate = k.per_second u.perf_counters.total_page_faults k.elapsed_us in
      (
        (
          stopped c,
          some (result_with (4 * 1024 * 1024 * 1024) u.perf_counters throughput fault_rate),
        ),
        rw begun (rw (run ∙ ap ok at_u) (rw ended)),
        IsIdle-result u.perf_counters c (4 * 1024 * 1024 * 1024) throughput fault_rate b.counters,
      )

  random-IsIdle :
      (num_accesses gpu_memory_limit : ℕ)
      → 64 * 1024 ≤ working_set_size
      → ((i : ℕ) → k.page_dist i < working_set_size / (64 * 1024))
      → Returns
          (bench_random_page_access k before
            (running s)
            working_set_size
            num_accesses
            gpu_memory_limit)
          (IsIdle k)
  unfolding bench_random_page_access pages_to_draw reset_counters get_perf_counters measure
      page_address
  random-IsIdle num_accesses gpu_memory_limit big in_pages =
      let r = Allocate.allocate k.world s working_set_size false in
      let begun =
        begin-given k s (bench_config gpu_memory_limit PageReplacementPolicy.lru) working_set_size
          nonnull_test in
      let drawn : ltb working_set_size (64 * 1024) ≡ false = ground arith in
      let warm_up = (if ltb (num_accesses / 10) 1000 then num_accesses / 10 else 1000) in
      let (m, warm, (t, at_t, a)) =
        touch_loop-Uncounted k (λ i. u64_add r.1 (k.rand i % working_set_size)) (λ i. false) warm_up
          0 r.0 allocated.valid
          (λ j le lt.
            within-Present (k.rand j % working_set_size) (mod-lt (k.rand j) (omega arith))) in
      let cleared = record t { perf_counters = reset } in
      let keeps = counted-Keeps t reset a.keeps.valid in
      let (n, run, (u, at_u, b)) =
        touch_loop-Uncounted k (λ i. page_address k r.1 (k.page_dist i)) (λ i. i % 2 == 0)
          num_accesses 0 cleared keeps.valid
          (λ j le lt.
            rw (sym a.keeps.fixed.config) at
              (a.keeps.extends.present _ (page-Present (k.page_dist j) (in_pages j)))) in
      let (c, ended) =
        end_-stopped k u r.1 b.keeps.valid (
          omega (arith, b.keeps.fixed.next_vpn, a.keeps.fixed.next_vpn, allocated.next_vpn, few)) in
      let throughput = k.per_second num_accesses k.elapsed_us in
      let fault_rate = k.per_second u.perf_counters.total_page_faults k.elapsed_us in
      (
        (stopped c, some (result_with gpu_memory_limit u.perf_counters throughput fault_rate)),
        rw begun (rw (warm ∙ ap ok at_t) (rw drawn (rw (run ∙ ap ok at_u) (rw ended)))),
        IsIdle-result u.perf_counters c gpu_memory_limit throughput fault_rate b.counters,
      )

-- The benchmarks of touches measure nothing but time. On a valid running manager with the benchmarks' page size, page
-- numbers and addresses enough, and a distribution that stays within the pages of the working set, where the
-- allocation of a working set from 64 KiB to 2 ^ 47 bytes does not return null, the sequential and the random
-- benchmark end without a fault, with the manager stopped and a result that has no page fault, no migration and no
-- byte migrated, however many accesses they make.
pub benchmarks-IsIdle :
    {W : Type 0} (k : Machine W) (before : BenchmarkResult W) (s : Vm)
    (working_set_size num_passes num_accesses gpu_memory_limit : ℕ)
    → IsValid s
    → s.config.page_size ≡ 64 * 1024
    → s.next_vpn + u32_mod < 2 ^ 48
    → 64 * 1024 ≤ working_set_size
    → working_set_size < 2 ^ 47
    → ((i : ℕ) → k.page_dist i < working_set_size / (64 * 1024))
    → (Allocate.allocate k.world s working_set_size false).1 ≢ 0
    → Returns (bench_sequential_access k before (running s) working_set_size num_passes) (IsIdle k)
      × Returns
          (bench_random_page_access k before
            (running s)
            working_set_size
            num_accesses
            gpu_memory_limit)
          (IsIdle k)
benchmarks-IsIdle k before s ws num_passes num_accesses limit v size room big small in_pages
      nonnull =
    (
      sequential-IsIdle k before s v size room ws small nonnull num_passes,
      random-IsIdle k before s v size room ws small nonnull num_accesses limit big in_pages,
    )
