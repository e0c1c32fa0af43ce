-- ===== src/Vm/Access.antt =====
-- `touch_page`, `read_from_vaddr`, `write_to_vaddr`, `get_next_vpn` and the statistics.
pub mod Bytes
use gpu_vmm.Prelude.{
  ℕ, zero, suc, ◌+◌, ◌-◌, ◌≡◌, Bool, true, false, ◌&&◌, ◌||◌, not, Option, none, some, List, [],
  ◌∷◌, if◌then◌else◌, leb, ltb, ◌==◌, length, Run, ok, fault, ◌>>=◌,
}
use gpu_vmm.Common.Words.{u32_add, u64_add}
use gpu_vmm.Common.Address.{vaddr_to_vpn}
use gpu_vmm.PageTable.{PageTable, PageTableEntry, lookup_entry, get_num_allocated_pages}
use gpu_vmm.PageAllocator.{PageAllocator, get_available_gpu_pages}
use gpu_vmm.Policies.{on_page_access}
use gpu_vmm.Vm.State.{World, Vm, now, tick, write_entry}
use gpu_vmm.Vm.Fault.{resolve_page_fault}

-- The block `if (entry) { … }` of `touch_page`.
unfoldable pub record_touch : World → Vm → ℕ → Bool → Vm
record_touch w s vpn is_write = elim (lookup_entry s.page_table vpn) [
  | none ↦ s
  | some _ ↦
      let s₁ =
        write_entry
          (λ e. record e {
            access_timestamp_us = now w s;
            access_count = u32_add e.access_count 1;
            is_dirty = if is_write then true else e.is_dirty;
          })
          (tick s) vpn in
      record s₁ { replacement_policy = on_page_access s₁.replacement_policy vpn }
]

unfoldable pub touch_page : World → Vm → ℕ → Bool → Run Vm
unfolding record_touch resolve_page_fault
touch_page w s vaddr is_write =
    let vpn = vaddr_to_vpn vaddr s.config.page_size in
    let c = s.perf_counters in
    let missing = record s {
      perf_counters = record c { total_page_faults = u64_add c.total_page_faults 1 };
    } in
    elim (lookup_entry s.page_table vpn) [
      | some _ ↦ ok (record_touch w s vpn is_write)
      | none ↦ do s₁ ← resolve_page_fault w missing vpn false; ok (record_touch w s₁ vpn is_write)
    ]

-- `memcpy` outside the pool is undefined.
unfoldable pub in_pool : PageAllocator → ℕ → ℕ → Bool
in_pool a address bytes =
    leb a.cpu_pool address && leb (address + bytes) (a.cpu_pool + a.config.cpu_page_pool_size)

-- The bytes from an address on.
unfoldable pub load : (ℕ → ℕ) → ℕ → ℕ → List ℕ
load memory address zero = []
load memory address (suc n) = memory address ∷ load memory (address + 1) n

-- The memory after the bytes are written from an address on.
unfoldable pub store : (ℕ → ℕ) → ℕ → List ℕ → ℕ → ℕ
store memory address [] a = memory a
store memory address (b ∷ bs) a =
    let rest = store memory (address + 1) bs a in if address == a then b else rest

-- The page is brought to the CPU and its entry looked up again.
unfoldable pub fetch : World → Vm → ℕ → PageTableEntry → Run Vm
unfolding resolve_page_fault
fetch w s vpn e = if not e.resident_on_cpu then resolve_page_fault w s vpn false else ok s

-- The last block of `read_from_vaddr`.
unfoldable pub copy_out : World → Vm → ℕ → ℕ → Run (Vm × Option (List ℕ))
unfolding in_pool load
copy_out w s vpn bytes = elim (lookup_entry s.page_table vpn) [
  | none ↦ ok (s, none)
  | some e ↦
      if e.cpu_address == 0
      then ok (s, none)
      else if in_pool s.allocator e.cpu_address bytes
      then ok (
        write_entry (λ x. record x { access_timestamp_us = now w s }) (tick s) vpn,
        some (load s.memory e.cpu_address bytes),
      )
      else fault
]

-- The buffer after the call, if anything was copied into it; `buffer` says whether it is not null.
unfoldable pub read_from_vaddr : World → Vm → ℕ → Bool → ℕ → Run (Vm × Option (List ℕ))
unfolding fetch copy_out
read_from_vaddr w s vaddr buffer bytes =
    let vpn = vaddr_to_vpn vaddr s.config.page_size in
    if vaddr == 0 || not buffer then ok (s, none) else elim (lookup_entry s.page_table vpn) [
      | none ↦ ok (s, none)
      | some e ↦ do s₁ ← fetch w s vpn e; copy_out w s₁ vpn bytes
    ]

-- The last block of `write_to_vaddr`.
unfoldable pub copy_in : World → Vm → ℕ → List ℕ → Run Vm
unfolding in_pool store
copy_in w s vpn bytes = elim (lookup_entry s.page_table vpn) [
  | none ↦ ok s
  | some e ↦
      if e.cpu_address == 0
      then ok s
      else if in_pool s.allocator e.cpu_address (length bytes)
      then ok (
          write_entry (λ x. record x { is_dirty = true; access_timestamp_us = now w s })
            (record (tick s) { memory = store s.memory e.cpu_address bytes }) vpn)
      else fault
]

-- `none` is a null buffer; otherwise the bytes that it holds.
unfoldable pub write_to_vaddr : World → Vm → ℕ → Option (List ℕ) → Run Vm
unfolding fetch copy_in
write_to_vaddr w s vaddr none = ok s
write_to_vaddr w s vaddr (some bytes) =
    let vpn = vaddr_to_vpn vaddr s.config.page_size in
    if vaddr == 0 then ok s else elim (lookup_entry s.page_table vpn) [
      | none ↦ ok s
      | some e ↦ do s₁ ← fetch w s vpn e; copy_in w s₁ vpn bytes
    ]

unfoldable pub get_gpu_pages_used : Vm → ℕ
get_gpu_pages_used s = length s.gpu_resident_pages

unfoldable pub get_gpu_pages_available : Vm → ℕ
unfolding get_available_gpu_pages
get_gpu_pages_available s = get_available_gpu_pages s.allocator

unfoldable pub get_cpu_pages_used : Vm → ℕ
unfolding get_num_allocated_pages
get_cpu_pages_used s = get_num_allocated_pages s.page_table

-- The page number that is given out; nothing in the library calls it.
unfoldable pub get_next_vpn : Vm → Vm × ℕ
get_next_vpn s = (record s { next_vpn = u64_add s.next_vpn 1 }, s.next_vpn)
