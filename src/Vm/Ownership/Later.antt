-- ===== src/Vm/Ownership/Later.antt =====
-- `free` of one allocation after another one was made.
use gpu_vmm.Prelude.{
  ℕ, ◌+◌, ◌*◌, ◌≤◌, ◌<◌, ◌≡◌, ◌≢◌, sym, ◌∙◌, Bool, false, none, some, arith, if◌then◌else◌, ◌==◌,
  inl, inr, Returns, ==_refl,
}
use gpu_vmm.Prelude.Assoc.{find}
use gpu_vmm.Common.Words.{u32_mod, u64_mod}
use gpu_vmm.Common.Address.{vpn_to_vaddr}
use gpu_vmm.PageTable.{lookup_entry}
use gpu_vmm.PageTable.Range.{in_range}
use gpu_vmm.Vm.State.{World, Vm}
use gpu_vmm.Vm.Allocate.{pages_of, allocate, freed_pages, free}
use gpu_vmm.Vm.Allocate.Free.{free_lem}
use gpu_vmm.Vm.Allocate.Latest.{pages_from, allocate-pages, allocate-latest}
use gpu_vmm.Vm.Ownership.Valid.{IsValid}
use gpu_vmm.Vm.Ownership.Allocate.{Allocates, allocate_cases}
use gpu_vmm.Vm.Ownership.Return.{freed_pages_count}

-- An allocation that does not return null.
pub given_Allocates :
    (w : World) (s : Vm) (bytes : ℕ) (prefetch : Bool)
    → IsValid s
    → s.next_vpn + pages_of bytes s.config.page_size < u64_mod
    → (allocate w s bytes prefetch).1 ≢ 0
    → Allocates s (pages_of bytes s.config.page_size) (allocate w s bytes prefetch)
given_Allocates w s bytes prefetch v room nonnull =
    elim (allocate_cases w s bytes prefetch v room) [
      | inl done ↦ done
      | inr refused ↦ absurd (nonnull refused.null)
    ]

-- The pages of an allocation are counted in 32 bits.
pages_of-lt : (bytes page_size : ℕ) → pages_of bytes page_size < u32_mod
unfolding pages_of
pages_of-lt bytes page_size = omega arith

-- Two allocations, one after the other: the manager after both, and the two addresses.
abbrev pub allocate_twice : World → Vm → ℕ → ℕ → Bool → Vm × ℕ × ℕ
allocate_twice w s first later prefetch =
    let r = allocate w s first prefetch in let q = allocate w r.0 later prefetch in (q.0, r.1, q.1)

-- The two addresses differ where neither wraps.
addresses_apart :
    (start m n page : ℕ)
    → 0 < page
    → 0 < m
    → (start + m + n) * page < u64_mod
    → (vpn_to_vaddr (start + m) page == vpn_to_vaddr start page) ≡ false
unfolding vpn_to_vaddr
addresses_apart start m n page pos some_pages room =
    let less : start * page < (start + m) * page = grind arith in
    let below : (start + m) * page ≤ (start + m + n) * page = grind arith in ground arith

-- On a valid manager, let two allocations of at least a page each be made, one right after the other, neither of which
-- returns null, of fewer than 2 ^ 32 pages together, whose addresses and page numbers do not reach 2 ^ 64. `free` of
-- the address of the first then ends without a fault, and takes the entries of
-- all pages of both, and of no other page.
pub free_takes_later :
    (w : World) (s : Vm) (first later : ℕ) (prefetch : Bool) (m n : ℕ)
    → IsValid s
    → pages_of first s.config.page_size ≡ m
    → pages_of later s.config.page_size ≡ n
    → 0 < m
    → m + n < u32_mod
    → (s.next_vpn + m + n) * s.config.page_size < u64_mod
    → (allocate_twice w s first later prefetch).1 ≢ 0
    → (allocate_twice w s first later prefetch).2 ≢ 0
    → Returns
        (free
          (allocate_twice w s first later prefetch).0
          (allocate_twice w s first later prefetch).1)
        λ u.
          (j : ℕ)
          → lookup_entry u.page_table j ≡ (
              if in_range s.next_vpn (m + n) j
              then none
              else lookup_entry (allocate_twice w s first later prefetch).0.page_table j)
free_takes_later w s first later prefetch m n v pages_m pages_n some_pages few room given_r
      given_q =
    let page = s.config.page_size in
    let start = s.next_vpn in
    let r = allocate w s first prefetch in
    let q = allocate w r.0 later prefetch in
    let page_pos : 0 < page = rw v.page_size at v.exclusive.valid.page_pos in
    let numbers : start + m + n < u64_mod = grind arith in
    let a = rw pages_m at (given_Allocates w s first prefetch v (omega (arith, pages_m)) given_r) in
    let b =
      rw (a.config, pages_n) at
        (given_Allocates w r.0 later prefetch a.valid (rw (a.next_vpn, a.config, pages_n) numbers)
          given_q) in
    let count_m =
      rw pages_m at
        (allocate-latest w s first prefetch v.unused (omega (arith, pages_m)) given_r) in
    let grown =
      allocate-pages w r.0 start later prefetch (omega (arith, a.next_vpn))
        (rw (a.next_vpn, a.config, pages_n) (omega arith)) given_q in
    let count : pages_from start q.0.page_table ≡ m + n =
      rw (a.config, pages_n, count_m) at grown ∙ omega arith in
    let freed : freed_pages q.0 start ≡ m + n =
      freed_pages_count q.0 start (m + n) count ∙ ground arith in
    let apart : (q.1 == r.1) ≡ false =
      rw (b.address, a.address, a.next_vpn, a.config)
        (addresses_apart start m n page page_pos some_pages room) in
    let recorded : find r.1 q.0.vaddr_to_vpn_map ≡ some start =
      b.recorded r.1 ∙ rw apart (a.recorded r.1 ∙ rw (==_refl r.1)) in
    let (u, run, (_, _, entries)) =
      free_lem q.0 r.1 start b.valid.tlb recorded (omega (arith, freed)) in
    (u, run, λ j. entries j ∙ rw freed)

-- On a valid manager, where an allocation of no page is followed by another allocation, which does not use up the page
-- numbers, and neither returns null, both return the same address.
pub allocate_nothing :
    (w : World) (s : Vm) (first later : ℕ) (prefetch : Bool)
    → IsValid s
    → pages_of first s.config.page_size ≡ 0
    → s.next_vpn + pages_of later s.config.page_size < u64_mod
    → (allocate_twice w s first later prefetch).1 ≢ 0
    → (allocate_twice w s first later prefetch).2 ≢ 0
    → (allocate_twice w s first later prefetch).1 ≡ (allocate_twice w s first later prefetch).2
allocate_nothing w s first later prefetch v empty room given_r given_q =
    let r = allocate w s first prefetch in
    let a = rw empty at (given_Allocates w s first prefetch v (omega (arith, empty)) given_r) in
    let same : r.0.next_vpn ≡ s.next_vpn = omega (arith, a.next_vpn) in
    let b = given_Allocates w r.0 later prefetch a.valid (rw (same, a.config) room) given_q in
    a.address ∙ sym (b.address ∙ rw (same, a.config))
