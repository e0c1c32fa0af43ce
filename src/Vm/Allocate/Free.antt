-- ===== src/Vm/Allocate/Free.antt =====
-- What `free` does to the page table, and how many pages it takes.
use gpu_vmm.Prelude.{
  ℕ, zero, suc, ◌+◌, ◌≤◌, ◌≡◌, refl, ◌∙◌, ap, none, some, if◌then◌else◌, ok, ◌>>=◌, Returns,
}
use gpu_vmm.Prelude.Assoc.{find, erase}
use gpu_vmm.Common.Words.{u64_mod, u64_add}
use gpu_vmm.PageTable.{lookup_entry, deallocate_vpn_range}
use gpu_vmm.PageTable.Range.{in_range, lookup-deallocate_vpn_range}
use gpu_vmm.Tlb.Invariant
use gpu_vmm.Tlb.View
use gpu_vmm.Vm.State.{Vm}
use gpu_vmm.Vm.Allocate.{drop_page, free_page, free_loop, freed_pages, free}

-- The page table and the map of allocations do not change in the loop of `free`.
record Frees (s u : Vm) : Type 0 where
  pub table : u.page_table ≡ s.page_table
  pub allocations : u.vaddr_to_vpn_map ≡ s.vaddr_to_vpn_map
  pub valid : Invariant.IsValid u.tlb

free_page-Frees : (s : Vm) (vpn : ℕ) → Invariant.IsValid s.tlb → Returns (free_page s vpn) (Frees s)
unfolding free_page drop_page
free_page-Frees s vpn v =
    let (tlb, run, (valid, _)) = View.invalidate_lem s.tlb v vpn in
    (
      drop_page s vpn tlb,
      ap (λ m. m >>= λ r. ok (drop_page s vpn r)) run,
      (record { table = refl; allocations = refl; valid = valid }),
    )

free_loop-Frees :
    (left i start : ℕ) (s : Vm)
    → Invariant.IsValid s.tlb
    → Returns (free_loop left i start s) (Frees s)
unfolding free_loop
free_loop-Frees zero i start s v = (s, refl, record { table = refl; allocations = refl; valid = v })
free_loop-Frees (suc left) i start s v =
    let (u, run, f) = free_page-Frees s (u64_add start i) v in
    let (r, rest, g) = free_loop-Frees left (i + 1) start u f.valid in
    (
      r,
      ap (λ m. m >>= free_loop left (i + 1) start) run ∙ rest,
      (record {
        table = g.table ∙ f.table;
        allocations = g.allocations ∙ f.allocations;
        valid = g.valid;
      }),
    )

-- On a manager with a valid TLB, for an address that the map of allocations sends to the page `start`, and
-- whose `freed_pages` pages from `start` on stay below 2 ^ 64, `free` ends without a fault, takes the address
-- from the map, and exactly those pages have lost their entries; the others keep theirs.
pub free_lem :
    (s : Vm) (vaddr start : ℕ)
    → Invariant.IsValid s.tlb
    → find vaddr s.vaddr_to_vpn_map ≡ some start
    → start + freed_pages s start ≤ u64_mod
    → Returns (free s vaddr) λ u.
      Invariant.IsValid u.tlb
      × (u.vaddr_to_vpn_map ≡ erase vaddr s.vaddr_to_vpn_map)
      × ((vpn : ℕ)
          → lookup_entry u.page_table vpn ≡ (
              if in_range start (freed_pages s start) vpn
              then none
              else lookup_entry s.page_table vpn))
unfolding free
free_lem s vaddr start v e h =
    let n = freed_pages s start in
    let (r, run, f) = free_loop-Frees n 0 start s v in
    (
      (record r {
        page_table = deallocate_vpn_range r.page_table start n;
        vaddr_to_vpn_map = erase vaddr r.vaddr_to_vpn_map;
      }),
      rw (e, free, run),
      (
        f.valid,
        ap (erase vaddr) f.allocations,
        λ vpn.
            ap (λ t. lookup_entry (deallocate_vpn_range t start n) vpn) f.table
            ∙ lookup-deallocate_vpn_range s.page_table start n vpn h,
      ),
    )
