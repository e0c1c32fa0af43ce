-- ===== src/Vm/Ownership/Free.antt =====
-- `free`, from the loop on.
use gpu_vmm.Prelude.{
  ◌⊎◌, ℕ, ◌+◌, ◌≤◌, ◌<◌, ◌≡◌, refl, ap, none, arith, if◌then◌else◌, Bool-cases, Option-cases, inl,
  inr, Returns,
}
use gpu_vmm.Prelude.Assoc.{find, erase, find-erase}
use gpu_vmm.Common.Words.{u32_mod, u64_mod}
use gpu_vmm.PageTable.{PageTable, get_all_entries, lookup_entry, deallocate_vpn_range}
use gpu_vmm.PageTable.Range.{in_range, lookup-deallocate_vpn_range}
use gpu_vmm.Vm.State.{Vm}
use gpu_vmm.Vm.Allocate.Count.{count_from-lt}
use gpu_vmm.Vm.Allocate.{freed_pages, free}
use gpu_vmm.Vm.Ownership.Table.{cpu_of, gpu_of}
use gpu_vmm.Vm.Ownership.Valid.{IsValid}
use gpu_vmm.Vm.Ownership.Freed.{Freed, free_loop-Freed}

cpu_of_gone :
    (t : PageTable) (start n v : ℕ)
    → start + n ≤ u64_mod
    → cpu_of (deallocate_vpn_range t start n) v
      ≡ (if in_range (start + 0) n v then 0 else cpu_of t v)
unfolding cpu_of
cpu_of_gone t start n v h = ground (arith, lookup-deallocate_vpn_range t start n v h)

gpu_of_gone :
    (t : PageTable) (start n v : ℕ)
    → start + n ≤ u64_mod
    → gpu_of (deallocate_vpn_range t start n) v
      ≡ (if in_range (start + 0) n v then 0 else gpu_of t v)
unfolding gpu_of
gpu_of_gone t start n v h = ground (arith, lookup-deallocate_vpn_range t start n v h)

freed_pages-lt : (s : Vm) (start : ℕ) → freed_pages s start < u32_mod
unfolding freed_pages
freed_pages-lt s start = ground (arith, count_from-lt start (get_all_entries s.page_table))

-- The state after `free`: every page has its old entry or none.
pub record Frees (s u : Vm) : Type 0 where
  pub valid : IsValid u
  pub config : u.config ≡ s.config
  pub memory : u.memory ≡ s.memory
  pub next_vpn : u.next_vpn ≡ s.next_vpn
  pub entries :
      (v : ℕ)
      → (lookup_entry u.page_table v ≡ none)
        ⊎ (lookup_entry u.page_table v ≡ lookup_entry s.page_table v)

-- The end of `free`, once the loop has handed the frames back.
finish_free :
    (s r : Vm) (vaddr start n : ℕ)
    → IsValid s
    → start + n ≤ u64_mod
    → Freed s (deallocate_vpn_range s.page_table start n) r
    → Frees s (record r {
      page_table = deallocate_vpn_range r.page_table start n;
      vaddr_to_vpn_map = erase vaddr r.vaddr_to_vpn_map;
    })
finish_free s r vaddr start n v h f =
    let u = deallocate_vpn_range s.page_table start n in
    let gone = λ (j : ℕ). lookup-deallocate_vpn_range s.page_table start n j h in
    let there = ap (λ t. deallocate_vpn_range t start n) f.table in
    record {
      valid = record {
        exclusive = rw f.table f.exclusive;
        tlb = f.tlb;
        policy = f.policy;
        page_size = rw (f.config, f.fixed.config) v.page_size;
        unused = λ j below. rw f.table (ground (arith, gone j, v.unused j, f.fixed.next_vpn));
        allocated = λ a p e. ground (
          arith,
          v.allocated a p,
          f.fixed.next_vpn,
          f.fixed.allocations,
          find-erase vaddr a r.vaddr_to_vpn_map,
        );
      };
      config = f.fixed.config;
      memory = f.fixed.memory;
      next_vpn = f.fixed.next_vpn;
      entries = λ j. rw f.table (elim (Bool-cases (in_range start n j)) [
        | inl inside ↦ inl (ground (arith, gone j))
        | inr outside ↦ inr (ground (arith, gone j))
      ]);
    }

-- On a valid manager with 2 ^ 32 page numbers left, `free` of any address ends without a fault in a valid manager:
-- the frames of the pages that lose their entries are free again, and no others. Every other page has the entry it
-- had, and no byte of the memory changes.
pub free-Frees :
    (s : Vm) (vaddr : ℕ)
    → IsValid s
    → s.next_vpn + u32_mod ≤ u64_mod
    → Returns (free s vaddr) (Frees s)
unfolding free
free-Frees s vaddr v h = elim (Option-cases (find vaddr s.vaddr_to_vpn_map)) [
  | inl e ↦ (
    s,
    rw (e, free),
    (record { valid = v; config = refl; memory = refl; next_vpn = refl; entries = λ j. inr refl }),
  )
  | inr (start, e) ↦
      let n = freed_pages s start in
      let room : start + n ≤ u64_mod =
        omega (arith, v.allocated vaddr start e, freed_pages-lt s start) in
      let u = deallocate_vpn_range s.page_table start n in
      let (r, run, f) =
        free_loop-Freed n 0 start s s.page_table u v.tlb v.policy (omega arith) v.exclusive
          (λ j inside. (refl, refl))
          (λ j.
            (cpu_of_gone s.page_table start n j room, gpu_of_gone s.page_table start n j room)) in
      (_, rw (e, free, run), finish_free s r vaddr start n v room f)
]
