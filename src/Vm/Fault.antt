-- ===== src/Vm/Fault.antt =====
-- `evict_page_from_gpu`, `resolve_page_fault`, `map_to_cpu`, `map_to_gpu` and `prefetch_to_gpu`.
use gpu_vmm.Prelude.{
  ℕ, Bool, true, false, ◌&&◌, not, none, some, List, [], ◌∷◌, if◌then◌else◌, ◌==◌, Run, ok, ◌>>=◌,
}
use gpu_vmm.Prelude.Assoc.{add, remove}
use gpu_vmm.Common.Words.{u64_add}
use gpu_vmm.Common.Address.{vaddr_to_vpn}
use gpu_vmm.PageTable.{PageTableEntry, lookup_entry}
use gpu_vmm.PageAllocator.{allocate_cpu_page, allocate_gpu_page, deallocate_gpu_page}
use gpu_vmm.Tlb
use gpu_vmm.Policies.{select_victim}
use gpu_vmm.Vm.State.{World, Vm, write_entry, charge_to_gpu, charge_to_cpu}

-- The body of `if (entry)` in `evict_page_from_gpu`, up to the TLB.
unfoldable pub evict_entry : World → Vm → ℕ → PageTableEntry → Vm
unfolding charge_to_cpu
evict_entry w s victim e =
    let s₁ =
      if e.is_dirty && e.resident_on_cpu
      then charge_to_cpu w s victim e.gpu_address e.cpu_address
      else s in
    let s₂ = record s₁ { allocator = deallocate_gpu_page s₁.allocator e.gpu_address } in
    let s₃ = write_entry (λ x. record x { gpu_address = 0; resident_on_gpu = false }) s₂ victim in
    let c = s₃.perf_counters in
    record s₃ {
      gpu_resident_pages = remove victim s₃.gpu_resident_pages;
      perf_counters = record c { evictions = u64_add c.evictions 1 };
    }

unfoldable pub evict_victim : World → Vm → ℕ → Run Vm
unfolding evict_entry
evict_victim w s victim = if victim == 0 then ok s else elim (lookup_entry s.page_table victim) [
  | none ↦ ok s
  | some e ↦ do
    let s₁ = evict_entry w s victim e
    tlb ← Tlb.invalidate s₁.tlb victim
    ok (record s₁ { tlb = tlb })
]

unfoldable pub is_empty : List ℕ → Bool
is_empty [] = true
is_empty (_ ∷ _) = false

-- Page 0 as a victim stands for "none" in the source, and then the first resident page is taken.
unfoldable pub evict_page_from_gpu : World → Vm → Run Vm
unfolding evict_victim
evict_page_from_gpu w s = if is_empty s.gpu_resident_pages then ok s else (do
  (policy, chosen) ← select_victim s.replacement_policy
  evict_victim w (record s { replacement_policy = policy })
      (if chosen == 0 then w.first s.gpu_resident_pages else chosen))

-- `entry->gpu_address = allocator_->allocate_gpu_page()`, and the address.
unfoldable pub assign_gpu_page : Vm → ℕ → Vm × ℕ
assign_gpu_page s vpn =
    let r = allocate_gpu_page s.allocator in
    let s₁ = record s { allocator = r.0 } in
    (write_entry (λ e. record e { gpu_address = r.1 }) s₁ vpn, r.1)

-- `if (entry->gpu_address == 0) { … }`
unfoldable pub ensure_gpu_page : World → Vm → ℕ → PageTableEntry → Run Vm
unfolding assign_gpu_page
ensure_gpu_page w s vpn e =
    if not (e.gpu_address == 0)
    then ok s
    else (let r = assign_gpu_page s vpn in
        if not (r.1 == 0)
        then ok r.0
        else (do s₁ ← evict_page_from_gpu w r.0; ok (assign_gpu_page s₁ vpn).0))

-- `if (entry->resident_on_cpu) { … }`; the entry is read again through the pointer.
unfoldable pub migrate_in : World → Vm → ℕ → Vm
unfolding charge_to_gpu
migrate_in w s vpn = elim (lookup_entry s.page_table vpn) [
  | none ↦ s
  | some e ↦ if e.resident_on_cpu then charge_to_gpu w s vpn e.cpu_address e.gpu_address else s
]

-- The last two statements of the branch for a page that is not on the GPU.
unfoldable pub mark_gpu_resident : Vm → ℕ → Vm
mark_gpu_resident s vpn = record (write_entry (λ x. record x { resident_on_gpu = true }) s vpn) {
  gpu_resident_pages = add vpn s.gpu_resident_pages;
}

-- `if (!entry->resident_on_gpu) { … }`, which `map_to_gpu` and `resolve_page_fault` both have.
unfoldable pub make_gpu_resident : World → Vm → ℕ → PageTableEntry → Run Vm
unfolding ensure_gpu_page migrate_in mark_gpu_resident
make_gpu_resident w s vpn e =
    if e.resident_on_gpu
    then ok s
    else (do s₁ ← ensure_gpu_page w s vpn e; ok (mark_gpu_resident (migrate_in w s₁ vpn) vpn))

-- `if (entry->cpu_address == nullptr) { … }`
unfoldable pub ensure_cpu_page : Vm → ℕ → PageTableEntry → Vm
ensure_cpu_page s vpn e =
    if e.cpu_address == 0
    then (let r = allocate_cpu_page s.allocator in
        write_entry (λ x. record x { cpu_address = r.1 }) (record s { allocator = r.0 }) vpn)
    else s

-- `if (entry->resident_on_gpu) { … }`; the entry is read again through the pointer.
unfoldable pub migrate_back : World → Vm → ℕ → Vm
unfolding charge_to_cpu
migrate_back w s vpn = elim (lookup_entry s.page_table vpn) [
  | none ↦ s
  | some e ↦ if e.resident_on_gpu then charge_to_cpu w s vpn e.gpu_address e.cpu_address else s
]

-- `if (!entry->resident_on_cpu) { … }` of `resolve_page_fault`.
unfoldable pub make_cpu_resident : World → Vm → ℕ → PageTableEntry → Vm
unfolding ensure_cpu_page migrate_back
make_cpu_resident w s vpn e =
    if e.resident_on_cpu
    then s
    else write_entry (λ x. record x { resident_on_cpu = true })
        (migrate_back w (ensure_cpu_page s vpn e) vpn) vpn

unfoldable pub resolve_page_fault : World → Vm → ℕ → Bool → Run Vm
unfolding make_gpu_resident make_cpu_resident
resolve_page_fault w s vpn access_gpu = elim (lookup_entry s.page_table vpn) [
  | none ↦ ok s
  | some e ↦ if access_gpu then make_gpu_resident w s vpn e else ok (make_cpu_resident w s vpn e)
]

-- The parameter `prefetch` of `map_to_cpu` is not used.
unfoldable pub map_to_cpu : World → Vm → ℕ → Run Vm
unfolding resolve_page_fault
map_to_cpu w s vaddr =
    let vpn = vaddr_to_vpn vaddr s.config.page_size in
    elim (lookup_entry s.page_table vpn) [
      | none ↦ ok s
      | some e ↦ if not e.resident_on_cpu then resolve_page_fault w s vpn false else ok s
    ]

unfoldable pub map_to_gpu : World → Vm → ℕ → Run Vm
unfolding make_gpu_resident
map_to_gpu w s vaddr =
    let vpn = vaddr_to_vpn vaddr s.config.page_size in
    elim (lookup_entry s.page_table vpn) [ none ↦ ok s | some e ↦ make_gpu_resident w s vpn e ]

unfoldable pub prefetch_to_gpu : World → Vm → ℕ → Run Vm
unfolding map_to_gpu
prefetch_to_gpu w s vaddr = map_to_gpu w s vaddr
