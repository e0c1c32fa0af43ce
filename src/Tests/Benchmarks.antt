-- ===== src/Tests/Benchmarks.antt =====
-- The benchmarks on a manager with pages of 64 KiB, and on a stopped one.
use gpu_vmm.Prelude.{ℕ, ◌*◌, ◌≤◌, if◌then◌else◌, ◌==◌, ◌≡◌, refl, false, none, arith, Returns}
use gpu_vmm.Prelude.Assoc.{find, insert, modify}
use gpu_vmm.Common.Address.{vpn_to_vaddr, align_to_page}
use gpu_vmm.Common.Counters.{reset}
use gpu_vmm.PageTable.{
  PageTable, lookup_entry, allocate_vpn_range, set_cpu_resident, update_access_time,
}
use gpu_vmm.PageAllocator.{PageAllocator, cpu_frame, gpu_frame, allocate_cpu_page}
use gpu_vmm.PageAllocator.Bitmap.{is_set, used, first_free}
use gpu_vmm.PageAllocator.Invariant
use gpu_vmm.Vm.State.{Vm}
use gpu_vmm.Vm.Allocate
use gpu_vmm.Vm.Lifecycle.{running, stopped}
use gpu_vmm.Vm.Ownership.Table.{cpu_of, gpu_of}
use gpu_vmm.Vm.Ownership.Valid.{IsValid}
use gpu_vmm.Benchmark.{
  Machine, BenchmarkResult, bench_random_page_access, bench_sequential_access,
  bench_working_set_overflow,
}
use gpu_vmm.Benchmark.Measured.{IsIdle, benchmarks-IsIdle}
use gpu_vmm.Benchmark.Early.{IsUnmeasured, benchmarks_early}
use gpu_vmm.Tests.Caches.{cache-IsValid}
use gpu_vmm.Tests.Doubles.{roomy, first_of_four}
use gpu_vmm.Tests.Managers.{
  world, table, manager, one_owner, no_owner, none_set, page_allocated, sixteen_byte_pages,
}

abbrev wide : PageAllocator
wide = record roomy {
  config = record roomy.config {
    page_size = 64 * 1024;
    cpu_page_pool_size = 256 * 1024;
    gpu_page_pool_size = 128 * 1024;
  };
  gpu_pool = 64 * 1024;
}

wide-IsValid : Invariant.IsValid wide
unfolding used
wide-IsValid = record {
  page_pos = omega arith;
  cpu_pool_pos = omega arith;
  cpu_pool_fits = omega arith;
  gpu_pool_fits = omega arith;
  cpu_frames = refl;
  gpu_frames = refl;
  cpu_counted = refl;
  gpu_counted = refl;
}

abbrev large_table : PageTable
large_table = record (table 0) { page_size = 64 * 1024 }

large_cpu_of : (v : ℕ) → cpu_of large_table v ≡ (if 5 == v then 4096 else 0)
unfolding cpu_of lookup_entry find
large_cpu_of v = ground arith

large_gpu_of : (v : ℕ) → gpu_of large_table v ≡ 0
unfolding gpu_of lookup_entry find
large_gpu_of v = ground arith

large_unused : (v : ℕ) → 6 ≤ v → lookup_entry large_table v ≡ none
unfolding lookup_entry find
large_unused v h = ground arith

abbrev of_large_pages : Vm
of_large_pages = record (manager wide 0) {
  config = record sixteen_byte_pages { page_size = 64 * 1024 };
  page_table = large_table;
}

of_large_pages-IsValid : IsValid of_large_pages
unfolding cpu_frame is_set
of_large_pages-IsValid = record {
  exclusive = record {
    valid = wide-IsValid;
    cpu =
        one_owner (cpu_frame wide) (is_set wide.cpu_page_bitmap) (cpu_of large_table) refl
          first_of_four large_cpu_of;
    gpu =
        no_owner (gpu_frame wide) (is_set wide.gpu_page_bitmap) (gpu_of large_table) none_set
          large_gpu_of;
  };
  tlb = cache-IsValid;
  policy = (_, refl);
  page_size = refl;
  unused = large_unused;
  allocated = page_allocated;
}

abbrev machine : Machine ℕ
machine = record {
  world = world;
  malloc = λ size. 4096;
  process = record { counters = reset; memory = λ a. 0; readings = 0 };
  rand = λ i. i;
  page_dist = λ i. 0;
  elapsed_us = 500;
  per_second = λ n t. n;
}

abbrev before : BenchmarkResult ℕ
before = record {
  working_set_size = 1;
  gpu_memory = 2;
  page_faults = 3;
  migrations = 4;
  migrated_bytes = 5;
  total_time_us = 6;
  throughput_pages_per_sec = 7;
  fault_rate_per_second = 8;
}

-- The address of the first of the three pages.
three_pages : (Allocate.allocate world of_large_pages (192 * 1024) false).1 ≡ 6 * (64 * 1024)
unfolding Allocate.allocate allocate_vpn_range find allocate_cpu_page first_free vpn_to_vaddr
    align_to_page insert update_access_time modify set_cpu_resident
three_pages = refl

benchmarks-IsIdle_example :
    Returns
      (bench_sequential_access machine before (running of_large_pages) (192 * 1024) 10)
      (IsIdle machine)
    × Returns
        (bench_random_page_access machine before
          (running of_large_pages)
          (192 * 1024)
          100
          (1024 * 1024))
        (IsIdle machine)
benchmarks-IsIdle_example =
    benchmarks-IsIdle machine before of_large_pages (192 * 1024) 10 100 (1024 * 1024)
      of_large_pages-IsValid refl (omega arith) (omega arith) (omega arith) (λ i. omega arith)
      (omega (arith, three_pages))

benchmarks_early_example :
    (Returns
      (bench_random_page_access machine before (stopped reset) (192 * 1024) 100 (1024 * 1024))
      (IsUnmeasured before (192 * 1024) (1024 * 1024)))
    × (Returns
        (bench_sequential_access machine before (stopped reset) (192 * 1024) 10)
        (IsUnmeasured before (192 * 1024) (4 * 1024 * 1024 * 1024)))
    × (Returns
        (bench_working_set_overflow machine before (stopped reset) (192 * 1024))
        (IsUnmeasured before (192 * 1024) (512 * 1024 * 1024)))
benchmarks_early_example =
    benchmarks_early machine before reset (192 * 1024) 10 100 (1024 * 1024) (omega arith)
      (omega arith) (omega arith)
