-- ===== src/Vm/Allocate/Count.antt =====
-- The count that `free` makes: it includes the pages of later allocations.
use gpu_vmm.Prelude.{
  ℕ, zero, suc, ◌+◌, ◌%◌, ◌≤◌, ◌<◌, ◌≡◌, true, none, List, [], ◌∷◌, arith, Option-cases, inl, inr,
}
use gpu_vmm.Prelude.Assoc.{find, insert}
use gpu_vmm.Common.Words.{u32_mod, u64_mod, u64_add, u32_add, u64_add_small}
use gpu_vmm.PageTable.{
  PageTable, PageTableEntry, valid_entries, get_all_entries, allocate_loop, allocate_vpn_range,
}
use gpu_vmm.PageTable.Range.{fresh}
use gpu_vmm.Vm.Allocate.{count_from}

pub count_from-lt : (start : ℕ) (es : List (ℕ × PageTableEntry)) → count_from start es < u32_mod
unfolding count_from
count_from-lt start [] = omega arith
count_from-lt start ((j, e) ∷ es) = ground (arith, count_from-lt start es)

count_from-insert :
    (start vpn : ℕ) (es : List (ℕ × PageTableEntry))
    → find vpn es ≡ none
    → start ≤ vpn
    → count_from start (valid_entries (insert vpn fresh es))
      ≡ u32_add (count_from start (valid_entries es)) 1
unfolding count_from valid_entries insert find
count_from-insert start vpn [] absent h = ground arith
count_from-insert start vpn ((j, e) ∷ es) absent h = ground (arith, count_from-insert start vpn es)

count_from-allocate_loop :
    (start left i later : ℕ) (t : PageTable)
    → start ≤ later
    → later + i + left ≤ u64_mod
    → (allocate_loop left i later t).1 ≡ true
    → count_from start (valid_entries (allocate_loop left i later t).0.entries)
      ≡ (count_from start (valid_entries t.entries) + left) % u32_mod
unfolding allocate_loop
count_from-allocate_loop start zero i later t h k done =
    omega (arith, count_from-lt start (valid_entries t.entries))
count_from-allocate_loop start (suc left) i later t h k done =
    let vpn = u64_add later i in
    elim (Option-cases (find vpn t.entries)) [
      | inr (e, found) ↦ absurd (ground (arith, rw (found, allocate_loop) at done))
      | inl absent ↦
          let u : PageTable = record t { entries = insert vpn fresh t.entries } in
          let rest : (allocate_loop left (i + 1) later u).1 ≡ true =
            rw (absent, allocate_loop) at done in
          let ih = count_from-allocate_loop start left (i + 1) later u h (omega arith) rest in
          let one =
            count_from-insert start vpn t.entries absent
              (omega (arith, u64_add_small later i (omega arith))) in
          rw (absent, allocate_loop) (omega (arith, ih, one))
    ]

-- For a range that does not wrap and that `allocate_vpn_range` accepts, the count that `free` makes from any
-- page at or below the range grows by all pages of the range, modulo 2 ^ 32: the pages of a later allocation
-- count for an earlier one.
pub count_from-allocate_vpn_range :
    (start later n : ℕ) (t : PageTable)
    → start ≤ later
    → later + n ≤ u64_mod
    → (allocate_vpn_range t later n).1 ≡ true
    → count_from start (get_all_entries (allocate_vpn_range t later n).0)
      ≡ (count_from start (get_all_entries t) + n) % u32_mod
unfolding allocate_vpn_range get_all_entries
count_from-allocate_vpn_range start later n t h k done =
    count_from-allocate_loop start n 0 later t h (omega arith) done
