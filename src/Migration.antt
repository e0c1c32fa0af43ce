-- ===== src/Migration.antt =====
-- src/vm/MigrationManager.h and src/vm/MigrationManager.cpp. A migration moves no bytes: it updates the
-- page table and measures time. The two readings of the clock are `start` and `stop`. The page table that
-- the constructor is given is never null in the library.
pub mod Workers
pub mod Conservation
pub mod Drain
pub mod Monitor
pub mod Wakeup
use gpu_vmm.Prelude.{ℕ, ◌≡◌, Bool, true, false, ◌||◌, Option, none, some, if◌then◌else◌, ◌==◌}
use gpu_vmm.Common.Words.{u64_sub}
use gpu_vmm.PageTable.{PageTable, PageTableEntry, write, lookup_entry}

-- The new page table, and the time that is returned.
unfoldable pub migrate_cpu_to_gpu : ℕ → ℕ → PageTable → ℕ → ℕ → ℕ → PageTable × ℕ
unfolding lookup_entry
migrate_cpu_to_gpu start stop t vpn cpu_addr gpu_addr =
    if cpu_addr == 0 then (t, 0) else elim (lookup_entry t vpn) [
      | none ↦ (t, 0)
      | some _ ↦ (
        write (λ e. record e { resident_on_gpu = true; gpu_address = gpu_addr; is_dirty = false }) t
            vpn,
        u64_sub stop start,
      )
    ]

unfoldable pub migrate_gpu_to_cpu : ℕ → ℕ → PageTable → ℕ → ℕ → ℕ → PageTable × ℕ
migrate_gpu_to_cpu start stop t vpn gpu_addr cpu_addr =
    if cpu_addr == 0 || gpu_addr == 0 then (t, 0) else (
      write (λ e. record e { resident_on_cpu = true; cpu_address = cpu_addr }) t vpn,
      u64_sub stop start,
    )
