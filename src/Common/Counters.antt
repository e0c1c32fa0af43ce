-- ===== src/Common/Counters.antt =====
-- `PerfCounters` of src/vm/Common.h; each counter is an atomic `uint64_t`.
use gpu_vmm.Prelude.{ℕ}

pub record PerfCounters : Type 0 where
  pub total_page_faults : ℕ
  pub cpu_to_gpu_migrations : ℕ
  pub gpu_to_cpu_migrations : ℕ
  pub total_bytes_migrated : ℕ
  pub total_migration_time_us : ℕ
  pub tlb_hits : ℕ
  pub tlb_misses : ℕ
  pub evictions : ℕ
  pub kernel_launches : ℕ
  pub page_prefetches : ℕ

-- `reset` overwrites every counter, so the old values do not matter; they start at 0 too.
unfoldable pub reset : PerfCounters
reset = record {
  total_page_faults = 0;
  cpu_to_gpu_migrations = 0;
  gpu_to_cpu_migrations = 0;
  total_bytes_migrated = 0;
  total_migration_time_us = 0;
  tlb_hits = 0;
  tlb_misses = 0;
  evictions = 0;
  kernel_launches = 0;
  page_prefetches = 0;
}
