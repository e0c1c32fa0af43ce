-- ===== src/PageTable/Range.antt =====
-- What `allocate_vpn_range` and `deallocate_vpn_range` do to the entry of every page.
use gpu_vmm.Prelude.{
  ℕ, zero, suc, ◌+◌, ◌≤◌, ◌<◌, ◌≡◌, ◌≢◌, refl, ◌⊎◌, inl, inr, Bool, true, false, ◌&&◌, none, some,
  if◌then◌else◌, ltb, leb, arith, Option-cases, ◌==◌,
}
use gpu_vmm.Prelude.Assoc.{insert, erase, find-insert, find-erase}
use gpu_vmm.Common.Words.{u64_mod, u64_add, u64_add_small}
use gpu_vmm.PageTable.{
  PageTable, PageTableEntry, blank, lookup_entry, allocate_loop, allocate_vpn_range,
  deallocate_loop, deallocate_vpn_range,
}

-- `vpn` is one of the `n` pages from `start` on.
abbrev pub in_range : ℕ → ℕ → ℕ → Bool
in_range start n vpn = leb start vpn && ltb vpn (start + n)

-- The entry that an allocated page starts with.
abbrev pub fresh : PageTableEntry
fresh = record blank { is_valid = true }

abbrev with_page : ℕ → PageTable → PageTable
with_page vpn t = record t { entries = insert vpn fresh t.entries }

allocate_loop_free :
    (left i start : ℕ) (t : PageTable)
    → start + i < u64_mod
    → lookup_entry t (start + i) ≡ none
    → allocate_loop (suc left) i start t
      ≡ allocate_loop left (i + 1) start (with_page (start + i) t)
unfolding allocate_loop lookup_entry
allocate_loop_free left i start t h free =
    rw (allocate_loop, u64_add_small start i h, free) (rw (u64_add_small start i h))

lookup-with_page :
    (vpn j : ℕ) (t : PageTable)
    → lookup_entry (with_page vpn t) j ≡ (if vpn == j then some fresh else lookup_entry t j)
unfolding lookup_entry
lookup-with_page vpn j t = find-insert vpn j fresh t.entries

allocate_loop-fresh :
    (left i start : ℕ) (t : PageTable)
    → start + i + left ≤ u64_mod
    → ((vpn : ℕ) → in_range (start + i) left vpn ≡ true → lookup_entry t vpn ≡ none)
    → ((allocate_loop left i start t).1 ≡ true)
      × ((vpn : ℕ)
          → lookup_entry (allocate_loop left i start t).0 vpn
            ≡ (if in_range (start + i) left vpn then some fresh else lookup_entry t vpn))
unfolding allocate_loop
allocate_loop-fresh zero i start t h free = (refl, λ vpn. ground arith)
allocate_loop-fresh (suc left) i start t h free =
    let t' = with_page (start + i) t in
    let rest =
      allocate_loop-fresh left (i + 1) start t' (omega arith)
        (λ vpn inside. ground (arith, free vpn, lookup-with_page (start + i) vpn t)) in
    rw (allocate_loop_free left i start t (omega arith) (free (start + i) (ground arith)))
      (rest.0, λ vpn. ground (arith, rest.1 vpn, lookup-with_page (start + i) vpn t))

-- The run stopped at page `start + k`: the pages before it were added, and stay.
pub record Stopped (start left k : ℕ) (t : PageTable) (r : PageTable × Bool) : Type 0 where
  pub within : k < left
  pub refused : r.1 ≡ false
  pub taken : lookup_entry t (start + k) ≢ none
  pub partial :
      (vpn : ℕ)
      → lookup_entry r.0 vpn ≡ (if in_range start k vpn then some fresh else lookup_entry t vpn)
  pub free_before : (vpn : ℕ) → in_range start k vpn ≡ true → lookup_entry t vpn ≡ none

allocate_loop_taken :
    (left i start : ℕ) (t : PageTable) (e : PageTableEntry)
    → start + i < u64_mod
    → lookup_entry t (start + i) ≡ some e
    → allocate_loop (suc left) i start t ≡ (t, false)
unfolding allocate_loop lookup_entry
allocate_loop_taken left i start t e h found = rw (allocate_loop, u64_add_small start i h, found)

-- A loop either adds its whole range or stops at the first page that is taken.
allocate_loop-cases :
    (left i start : ℕ) (t : PageTable)
    → start + i + left ≤ u64_mod
    → ((vpn : ℕ) → in_range (start + i) left vpn ≡ true → lookup_entry t vpn ≡ none)
      ⊎ ((k : ℕ) × Stopped (start + i) left k t (allocate_loop left i start t))
allocate_loop-cases zero i start t h = inl (λ vpn inside. ground arith)
allocate_loop-cases (suc left) i start t h = elim (Option-cases (lookup_entry t (start + i))) [
  | inr (e, found) ↦ inr (
    0,
    rw (allocate_loop_taken left i start t e (omega arith) found) (record {
      within = omega arith;
      refused = refl;
      taken = ground arith;
      partial = λ vpn. ground arith;
      free_before = λ vpn inside. ground arith;
    }),
  )
  | inl free ↦
      elim (allocate_loop-cases left (i + 1) start (with_page (start + i) t) (omega arith)) [
        | inl rest ↦
            inl (λ vpn inside. ground (arith, rest vpn, lookup-with_page (start + i) vpn t))
        | inr (k, st) ↦ inr (
          suc k,
          rw (allocate_loop_free left i start t (omega arith) free) (record {
            within = omega (arith, st.within);
            refused = st.refused;
            taken =
                λ e. ground (arith, st.taken, lookup-with_page (start + i) (start + (i + 1) + k) t);
            partial = λ vpn. ground (arith, st.partial vpn, lookup-with_page (start + i) vpn t);
            free_before = λ vpn inside.
                ground (arith, st.free_before vpn, lookup-with_page (start + i) vpn t);
          }),
        )
      ]
]

-- The run added its whole range: every page was absent before.
pub record Added (start n : ℕ) (t : PageTable) (r : PageTable × Bool) : Type 0 where
  pub accepted : r.1 ≡ true
  pub absent : (vpn : ℕ) → in_range start n vpn ≡ true → lookup_entry t vpn ≡ none
  pub added :
      (vpn : ℕ)
      → lookup_entry r.0 vpn ≡ (if in_range start n vpn then some fresh else lookup_entry t vpn)

-- For a range that does not wrap, `allocate_vpn_range` either returns true, when no page of the range
-- was present, and then every page of the range has a fresh valid entry and every other page is
-- untouched; or it returns false at the first page of the range that was present, and then the pages
-- before that one were added and stay, and every other page is untouched.
pub allocate_vpn_range_cases :
    (t : PageTable) (start n : ℕ)
    → start + n ≤ u64_mod
    → Added start n t (allocate_vpn_range t start n)
      ⊎ ((k : ℕ) × Stopped start n k t (allocate_vpn_range t start n))
unfolding allocate_vpn_range
allocate_vpn_range_cases t start n h =
    let e : start + 0 ≡ start = omega arith in
    elim (allocate_loop-cases n 0 start t (omega arith)) [
      | inl free ↦
          let r = allocate_loop-fresh n 0 start t (omega arith) free in
          inl (
            rw e at (
              let a : Added (start + 0) n t (allocate_loop n 0 start t) = record {
                accepted = r.0;
                absent = free;
                added = r.1;
              } in
              a))
      | inr (k, st) ↦ inr (k, rw e at st)
    ]

-- A range with no page present is accepted.
pub allocate_vpn_range-Added :
    (t : PageTable) (start n : ℕ)
    → start + n ≤ u64_mod
    → ((vpn : ℕ) → in_range start n vpn ≡ true → lookup_entry t vpn ≡ none)
    → Added start n t (allocate_vpn_range t start n)
unfolding allocate_vpn_range
allocate_vpn_range-Added t start n h free = elim (allocate_vpn_range_cases t start n h) [
  | inl a ↦ a
  | inr (k, st) ↦ absurd (st.taken (free (start + k) (ground (arith, st.within))))
]

deallocate_loop_lem :
    (left i start vpn : ℕ) (t : PageTable)
    → start + i + left ≤ u64_mod
    → lookup_entry (deallocate_loop left i start t) vpn
      ≡ (if in_range (start + i) left vpn then none else lookup_entry t vpn)
unfolding deallocate_loop lookup_entry
deallocate_loop_lem zero i start vpn t h = ground arith
deallocate_loop_lem (suc left) i start vpn t h = ground (
  arith,
  deallocate_loop_lem left (i + 1) start vpn
      (record t { entries = erase (u64_add start i) t.entries }) (omega arith),
  find-erase (u64_add start i) vpn t.entries,
  u64_add_small start i (omega arith),
)

-- For a range that does not wrap, `deallocate_vpn_range` leaves no entry for a page of the range and
-- does not touch any other page.
pub lookup-deallocate_vpn_range :
    (t : PageTable) (start n vpn : ℕ)
    → start + n ≤ u64_mod
    → lookup_entry (deallocate_vpn_range t start n) vpn
      ≡ (if in_range start n vpn then none else lookup_entry t vpn)
unfolding deallocate_vpn_range
lookup-deallocate_vpn_range t start n vpn h =
    let e : start + 0 ≡ start = omega arith in
    rw e at (deallocate_loop_lem n 0 start vpn t (omega arith))

-- For a range that does not wrap and that `allocate_vpn_range` accepts, `deallocate_vpn_range` of the same range
-- afterwards restores the lookup of every page.
pub deallocate-allocate_vpn_range :
    (t : PageTable) (start n vpn : ℕ)
    → start + n ≤ u64_mod
    → (allocate_vpn_range t start n).1 ≡ true
    → lookup_entry (deallocate_vpn_range (allocate_vpn_range t start n).0 start n) vpn
      ≡ lookup_entry t vpn
deallocate-allocate_vpn_range t start n vpn h done = elim (allocate_vpn_range_cases t start n h) [
  | inl a ↦ ground (
    arith,
    lookup-deallocate_vpn_range (allocate_vpn_range t start n).0 start n vpn h,
    a.added vpn,
    a.absent vpn,
  )
  | inr (k, st) ↦ absurd (ground (arith, st.refused))
]
