-- ===== src/Vm/State.antt =====
-- The state of an initialized manager, and what the manager uses from outside the program.
use gpu_vmm.Prelude.{ℕ, suc, Bool, List}
use gpu_vmm.Common.Words.{u64_add}
use gpu_vmm.Common.Counters.{PerfCounters}
use gpu_vmm.PageTable.{PageTable, PageTableEntry, write}
use gpu_vmm.PageAllocator.{PageAllocator}
use gpu_vmm.Tlb.{Tlb}
use gpu_vmm.Policies.{ReplacementPolicy}
use gpu_vmm.Migration.{migrate_cpu_to_gpu, migrate_gpu_to_cpu}

-- `clock n` is the reading of the clock that the manager makes as its `n`th; `first` is the element at
-- which the iteration over an `unordered_set` with these members begins.
pub record World : Type 0 where
  pub clock : ℕ → ℕ
  pub first : List ℕ → ℕ

pub data PageReplacementPolicy : Type 0 where
  lru clock : PageReplacementPolicy

pub record VmConfig : Type 0 where
  pub page_size : ℕ
  pub virtual_address_space : ℕ
  pub gpu_memory : ℕ
  pub tlb_size : ℕ
  pub tlb_associativity : ℕ
  pub replacement_policy : PageReplacementPolicy
  pub use_pinned_memory : Bool
  pub use_gpu_simulator : Bool
  pub enable_prefetch : Bool

-- The members behind the unique pointers are there as long as the manager is initialized. `readings` counts
-- the readings of the clock; `memory` is the byte at each address of the CPU pool. A routine that reads the
-- clock on some branches only takes its reading on every branch: the values of the clock are arbitrary.
pub record Vm : Type 0 where
  pub config : VmConfig
  pub perf_counters : PerfCounters
  pub page_table : PageTable
  pub allocator : PageAllocator
  pub tlb : Tlb
  pub replacement_policy : ReplacementPolicy
  pub next_vpn : ℕ
  pub vaddr_to_vpn_map : List (ℕ × ℕ)
  pub gpu_resident_pages : List ℕ
  pub readings : ℕ
  pub memory : ℕ → ℕ

abbrev pub now : World → Vm → ℕ
now w s = w.clock s.readings

abbrev pub tick : Vm → Vm
tick s = record s { readings = suc s.readings }

-- `entry` is a pointer into the table: a write through it changes the table.
abbrev pub write_entry : (PageTableEntry → PageTableEntry) → Vm → ℕ → Vm
write_entry f s vpn = record s { page_table = write f s.page_table vpn }

-- The call of `migrate_cpu_to_gpu` with the three counters that follow it.
unfoldable pub charge_to_gpu : World → Vm → ℕ → ℕ → ℕ → Vm
unfolding migrate_cpu_to_gpu
charge_to_gpu w s vpn cpu_addr gpu_addr =
    let r = migrate_cpu_to_gpu (now w s) (now w (tick s)) s.page_table vpn cpu_addr gpu_addr in
    let c = s.perf_counters in
    record s {
      page_table = r.0;
      readings = suc (suc s.readings);
      perf_counters = record c {
        cpu_to_gpu_migrations = u64_add c.cpu_to_gpu_migrations 1;
        total_bytes_migrated = u64_add c.total_bytes_migrated s.config.page_size;
        total_migration_time_us = u64_add c.total_migration_time_us r.1;
      };
    }

-- The call of `migrate_gpu_to_cpu` with its counters.
unfoldable pub charge_to_cpu : World → Vm → ℕ → ℕ → ℕ → Vm
unfolding migrate_gpu_to_cpu
charge_to_cpu w s vpn gpu_addr cpu_addr =
    let r = migrate_gpu_to_cpu (now w s) (now w (tick s)) s.page_table vpn gpu_addr cpu_addr in
    let c = s.perf_counters in
    record s {
      page_table = r.0;
      readings = suc (suc s.readings);
      perf_counters = record c {
        gpu_to_cpu_migrations = u64_add c.gpu_to_cpu_migrations 1;
        total_bytes_migrated = u64_add c.total_bytes_migrated s.config.page_size;
        total_migration_time_us = u64_add c.total_migration_time_us r.1;
      };
    }
