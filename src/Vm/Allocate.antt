-- ===== src/Vm/Allocate.antt =====
-- `allocate` and `free`. A result of 0 is `nullptr`.
pub mod Free
pub mod First
pub mod Count
pub mod Latest
use gpu_vmm.Prelude.{
  ℕ, zero, suc, ◌+◌, ◌/◌, ◌%◌, ◌≡◌, Bool, true, false, ◌&&◌, Option, none, some, List, [], ◌∷◌,
  ◌++◌, if◌then◌else◌, leb, ◌==◌, Run, ok, fault, ◌>>=◌,
}
use gpu_vmm.Prelude.Assoc.{find, insert, erase, add, remove}
use gpu_vmm.Common.Words.{u32_mod, u32_add, u64_add}
use gpu_vmm.Common.Address.{vpn_to_vaddr, align_to_page}
use gpu_vmm.PageTable.{
  PageTable, PageTableEntry, lookup_entry, allocate_vpn_range, deallocate_vpn_range,
  set_cpu_resident, set_gpu_resident, update_access_time, get_all_entries,
}
use gpu_vmm.PageAllocator.{
  PageAllocator, allocate_cpu_page, allocate_gpu_page, deallocate_cpu_page, deallocate_gpu_page,
}
use gpu_vmm.Tlb
use gpu_vmm.Policies.{on_page_allocated, on_page_freed}
use gpu_vmm.Vm.State.{World, Vm, now, tick, charge_to_gpu}

unfoldable pub pages_of : ℕ → ℕ → ℕ
unfolding align_to_page
pages_of bytes page_size = align_to_page bytes page_size / page_size % u32_mod

-- `for (auto p : cpu_pages) deallocate_cpu_page(p)`
unfoldable pub release_all : PageAllocator → List ℕ → PageAllocator
release_all a [] = a
release_all a (p ∷ ps) = release_all (deallocate_cpu_page a p) ps

-- One round of the first loop of `allocate` with its frame.
unfoldable pub give_cpu_page : World → Vm → ℕ → ℕ → Vm
give_cpu_page w s vpn cpu_page =
    let t₁ = set_cpu_resident (now w s) s.page_table vpn cpu_page in
    let t₂ = update_access_time (now w (tick s)) t₁ vpn in
    record s {
      page_table = t₂;
      readings = suc (suc s.readings);
      replacement_policy = on_page_allocated s.replacement_policy vpn;
    }

-- The first loop: the rounds left, `i`, and `cpu_pages`; `none` is the return of a null pointer, with the
-- frames of this call released.
unfoldable pub cpu_loop : World → ℕ → ℕ → ℕ → List ℕ → Vm → Vm × Option (List ℕ)
unfolding give_cpu_page release_all
cpu_loop w zero i vpn_start cpu_pages s = (s, some cpu_pages)
cpu_loop w (suc left) i vpn_start cpu_pages s =
    let r = allocate_cpu_page s.allocator in
    let rest =
      cpu_loop w left (i + 1) vpn_start (cpu_pages ++ r.1 ∷ [])
        (give_cpu_page w (record s { allocator = r.0 }) (u64_add vpn_start i) r.1) in
    if r.1 == 0 then (record s { allocator = release_all r.0 cpu_pages }, none) else rest

-- One round of the second loop: page `vpn` with its CPU frame.
unfoldable pub give_gpu_page : World → Vm → ℕ → ℕ → Vm
unfolding charge_to_gpu
give_gpu_page w s vpn cpu_page =
    let r = allocate_gpu_page s.allocator in
    let s₁ = record s { allocator = r.0 } in
    if r.1 == 0
    then s₁
    else (let s₂ = record s₁ {
      page_table = set_gpu_resident (now w s₁) s₁.page_table vpn r.1;
      readings = suc s₁.readings;
      gpu_resident_pages = add vpn s₁.gpu_resident_pages;
    } in
        let s₃ = charge_to_gpu w s₂ vpn cpu_page r.1 in
        let c = s₃.perf_counters in
        record s₃ { perf_counters = record c { page_prefetches = u64_add c.page_prefetches 1 } })

-- The second loop, over the frames of the first.
unfoldable pub gpu_loop : World → List ℕ → ℕ → ℕ → Vm → Vm
unfolding give_gpu_page
gpu_loop w [] i vpn_start s = s
gpu_loop w (p ∷ ps) i vpn_start s =
    gpu_loop w ps (i + 1) vpn_start (give_gpu_page w s (u64_add vpn_start i) p)

-- The end of `allocate`: the address of the first page.
unfoldable pub publish : Vm → ℕ → Vm × ℕ
publish s num_pages =
    let vaddr = vpn_to_vaddr s.next_vpn s.config.page_size in
    (
      record s {
        vaddr_to_vpn_map = insert vaddr s.next_vpn s.vaddr_to_vpn_map;
        next_vpn = u64_add s.next_vpn num_pages;
      },
      vaddr,
    )

unfoldable pub allocate : World → Vm → ℕ → Bool → Vm × ℕ
unfolding pages_of cpu_loop gpu_loop publish
allocate w s bytes prefetch_to_gpu =
    let num_pages = pages_of bytes s.config.page_size in
    let vpn_start = s.next_vpn in
    let r = allocate_vpn_range s.page_table vpn_start num_pages in
    let s₁ = record s { page_table = r.0 } in
    let s₂ = cpu_loop w num_pages 0 vpn_start [] s₁ in
    if r.1
    then elim s₂.1 [
      | none ↦ (
        record (s₂.0) { page_table = deallocate_vpn_range (s₂.0).page_table vpn_start num_pages },
        0,
      )
      | some cpu_pages ↦
          publish (if prefetch_to_gpu then gpu_loop w cpu_pages 0 vpn_start s₂.0 else s₂.0)
            num_pages
    ]
    else (s₁, 0)

-- The count at the beginning of `free`: all valid entries from `vpn_start` on.
unfoldable pub count_from : ℕ → List (ℕ × PageTableEntry) → ℕ
count_from vpn_start [] = 0
count_from vpn_start ((vpn, e) ∷ es) =
    if leb vpn_start vpn && e.is_valid
    then u32_add (count_from vpn_start es) 1
    else count_from vpn_start es

-- The frames of page `vpn` go back to the pools.
unfoldable pub freed_allocator : Vm → ℕ → PageAllocator
freed_allocator s vpn = elim (lookup_entry s.page_table vpn) [
  | none ↦ s.allocator
  | some e ↦
      let a₁ =
        (if e.cpu_address == 0
          then s.allocator
          else deallocate_cpu_page s.allocator e.cpu_address) in
      if e.gpu_address == 0 then a₁ else deallocate_gpu_page a₁ e.gpu_address
]

-- The round of the loop of `free`, with the TLB after its call.
unfoldable pub drop_page : Vm → ℕ → Tlb.Tlb → Vm
unfolding freed_allocator
drop_page s vpn tlb = record s {
  allocator = freed_allocator s vpn;
  gpu_resident_pages = remove vpn s.gpu_resident_pages;
  replacement_policy = on_page_freed s.replacement_policy vpn;
  tlb = tlb;
}

-- One round of the loop of `free`.
unfoldable pub free_page : Vm → ℕ → Run Vm
unfolding drop_page
free_page s vpn = do tlb ← Tlb.invalidate s.tlb vpn; ok (drop_page s vpn tlb)

unfoldable pub free_loop : ℕ → ℕ → ℕ → Vm → Run Vm
unfolding free_page
free_loop zero i vpn_start s = ok s
free_loop (suc left) i vpn_start s = do
  s₁ ← free_page s (u64_add vpn_start i)
  free_loop left (i + 1) vpn_start s₁

-- The number of pages that `free` gives back.
unfoldable pub freed_pages : Vm → ℕ → ℕ
unfolding count_from get_all_entries
freed_pages s vpn_start =
    let n = count_from vpn_start (get_all_entries s.page_table) in if n == 0 then 1 else n

unfoldable pub free : Vm → ℕ → Run Vm
unfolding free_loop freed_pages
free s vaddr = elim (find vaddr s.vaddr_to_vpn_map) [
  | none ↦ ok s
  | some vpn_start ↦ do
    let num_pages = freed_pages s vpn_start
    s₁ ← free_loop num_pages 0 vpn_start s
    ok (record s₁ {
      page_table = deallocate_vpn_range s₁.page_table vpn_start num_pages;
      vaddr_to_vpn_map = erase vaddr s₁.vaddr_to_vpn_map;
    })
]
