-- ===== src/Vm/Ownership/Return.antt =====
-- `free` right after `allocate`.
use gpu_vmm.Prelude.{
  ==_refl, some, ℕ, ◌+◌, ◌≤◌, ◌<◌, ◌≡◌, ◌≢◌, sym, ◌∙◌, ap, Bool, arith, if◌then◌else◌, ◌==◌,
  Bool-cases, inl, inr, Returns, Run, ok, fault,
}
use gpu_vmm.Prelude.Assoc.{find}
use gpu_vmm.Common.Words.{u32_mod, u64_mod}
use gpu_vmm.PageTable.{lookup_entry}
use gpu_vmm.PageTable.Range.{in_range}
use gpu_vmm.Vm.State.{World, Vm}
use gpu_vmm.Vm.Allocate.{pages_of, allocate, freed_pages, free}
use gpu_vmm.Vm.Allocate.Free.{free_lem}
use gpu_vmm.Vm.Allocate.Latest.{pages_from, allocate-latest}
use gpu_vmm.Vm.Ownership.Valid.{IsValid}
use gpu_vmm.Vm.Ownership.Allocate.{allocate_cases}
use gpu_vmm.Vm.Ownership.Free.{free-Frees}

ok-injective : {x y : Vm} → ok x ≡ ok y → x ≡ y
ok-injective {x} h = ap (λ (m : Run Vm). elim m [ fault ↦ x | ok z ↦ z ]) h

pub freed_pages_count :
    (s : Vm) (start n : ℕ)
    → pages_from start s.page_table ≡ n
    → freed_pages s start ≡ (if n == 0 then 1 else n)
unfolding freed_pages
freed_pages_count s start n h = rw h

-- On a valid manager with 2 ^ 33 page numbers left, `free` of the address that `allocate` has just returned, if it is
-- not null, ends without a fault in a valid manager where every page has the entry that it had before the
-- allocation: the pages are gone, and the frames they had are free again.
pub free-allocate :
    (w : World) (s : Vm) (bytes : ℕ) (prefetch : Bool)
    → IsValid s
    → s.next_vpn + u32_mod + u32_mod ≤ u64_mod
    → (allocate w s bytes prefetch).1 ≢ 0
    → Returns
        (free (allocate w s bytes prefetch).0 (allocate w s bytes prefetch).1)
        λ u. IsValid u × ((v : ℕ) → lookup_entry u.page_table v ≡ lookup_entry s.page_table v)
unfolding pages_of
free-allocate w s bytes prefetch v room nonnull =
    let n = pages_of bytes s.config.page_size in
    let small : n < u32_mod = omega arith in
    let start = s.next_vpn in
    elim (allocate_cases w s bytes prefetch v (omega arith)) [
      | inr refused ↦ absurd (nonnull refused.null)
      | inl done ↦
          let r = allocate w s bytes prefetch in
          let count = allocate-latest w s bytes prefetch v.unused (omega arith) nonnull in
          let recorded : find r.1 r.0.vaddr_to_vpn_map ≡ some start =
            done.recorded r.1 ∙ rw (==_refl r.1) in
          let freed = freed_pages_count r.0 start n count in
          let few : freed_pages r.0 start ≤ u32_mod = ground (arith, freed) in
          let (u, run, f) = free-Frees r.0 r.1 done.valid (omega (arith, done.next_vpn)) in
          let (q, again, (_, _, entries)) =
            free_lem r.0 r.1 start done.valid.tlb recorded (omega arith) in
          let same : q ≡ u = ok-injective (sym again ∙ run) in
          (
            u,
            run,
            (
              f.valid,
              λ j. rw same at (entries j) ∙ elim (Bool-cases (in_range start n j)) [
                | inl inside ↦ ground (arith, freed, v.unused j)
                | inr outside ↦ ground (arith, freed, done.others j outside, v.unused j)
              ],
            ),
          )
    ]
