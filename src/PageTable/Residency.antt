-- ===== src/PageTable/Residency.antt =====
-- The writes to one entry, seen through `lookup_entry`, and the entries that `get_all_entries` lists.
use mathlib.Core.Option
use gpu_vmm.Prelude.{ℕ, ◌≡◌, true, some, if◌then◌else◌, arith, ◌==◌}
use gpu_vmm.Prelude.Assoc.{find-modify}
use gpu_vmm.PageTable.{
  PageTable, PageTableEntry, write, lookup_entry, set_cpu_resident, set_gpu_resident,
}

pub lookup-write :
    (f : PageTableEntry → PageTableEntry) (t : PageTable) (vpn j : ℕ)
    → lookup_entry (write f t vpn) j
      ≡ (if vpn == j then Option.map f (lookup_entry t j) else lookup_entry t j)
unfolding lookup_entry
lookup-write f t vpn j = find-modify vpn j f t.entries

-- Setting the CPU and then the GPU residency of a present page leaves it with both flags, both
-- addresses and the later time stamp, and leaves every other page as it was.
pub set_resident_both :
    (t : PageTable) (vpn cpu gpu now later j : ℕ) (e : PageTableEntry)
    → lookup_entry t vpn ≡ some e
    → lookup_entry (set_gpu_resident later (set_cpu_resident now t vpn cpu) vpn gpu) j ≡ (
        if vpn == j
        then some (record e {
          resident_on_cpu = true;
          resident_on_gpu = true;
          cpu_address = cpu;
          gpu_address = gpu;
          access_timestamp_us = later;
        })
        else lookup_entry t j)
unfolding set_cpu_resident set_gpu_resident lookup_entry
set_resident_both t vpn cpu gpu now later j e h = ground (
  arith,
  find-modify vpn j
      (λ (x : PageTableEntry). record x {
        resident_on_cpu = true;
        cpu_address = cpu;
        access_timestamp_us = now;
      })
      t.entries,
  find-modify vpn j
      (λ (x : PageTableEntry). record x {
        resident_on_gpu = true;
        gpu_address = gpu;
        access_timestamp_us = later;
      })
      (set_cpu_resident now t vpn cpu).entries,
)
