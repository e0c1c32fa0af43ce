-- ===== src/Tlb/Evict.antt =====
-- Which entry `evict_lru` removes.
use native.Mathlib.Nat.{add_comm}
use native.Mathlib.Numerals.{add-one}
use gpu_vmm.Prelude.{
  ℕ, zero, suc, ◌+◌, ◌≤◌, ◌<◌, ◌≡◌, refl, some, List, [], ◌∷◌, get_elem?, remove_at, arith, ltb,
  Bool-cases, ◌⊎◌, inl, inr,
}
use gpu_vmm.Tlb.Set.{TlbEntry, min_loop, evict_lru}

-- Entry `m` is the first of those with the smallest time stamp.
pub record IsOldest (s : List TlbEntry) (m : ℕ) (o : TlbEntry) : Type 0 where
  pub found : get_elem? s m ≡ some o
  pub oldest : (j : ℕ) (e : TlbEntry) → get_elem? s j ≡ some e → o.timestamp ≤ e.timestamp
  pub first : (j : ℕ) (e : TlbEntry) → j < m → get_elem? s j ≡ some e → o.timestamp < e.timestamp

abbrev AllFrom : ℕ → List TlbEntry → Type 0
AllFrom t s = (j : ℕ) (e : TlbEntry) → get_elem? s j ≡ some e → t ≤ e.timestamp

AllFrom-cons :
    (t : ℕ) (x : TlbEntry) (s : List TlbEntry) → t ≤ x.timestamp → AllFrom t s → AllFrom t (x ∷ s)
AllFrom-cons t x s h all zero e p = ground arith
AllFrom-cons t x s h all (suc j) e p = all j e p

IsOldest-head : (x : TlbEntry) (s : List TlbEntry) → AllFrom x.timestamp s → IsOldest (x ∷ s) 0 x
IsOldest-head x s all = record {
  found = refl;
  oldest = AllFrom-cons x.timestamp x s (omega arith) all;
  first = λ j e lt p. elim lt [ ];
}

IsOldest-cons :
    (x : TlbEntry) (s : List TlbEntry) (k : ℕ) (o : TlbEntry)
    → o.timestamp < x.timestamp
    → IsOldest s k o
    → IsOldest (x ∷ s) (suc k) o
IsOldest-cons x s k o h b = record {
  found = b.found;
  oldest = AllFrom-cons o.timestamp x s (omega arith) b.oldest;
  first = earlier;
}
  where
    earlier :
        (j : ℕ) (e : TlbEntry)
        → j < suc k
        → get_elem? (x ∷ s) j ≡ some e
        → o.timestamp < e.timestamp
    earlier zero e lt p = ground arith
    earlier (suc j) e lt p = b.first j e (omega arith) p

-- The loop over the rest `s` of a list, from index `i` on, ends at an index whose entry has the smallest
-- time stamp of the rest and the candidate, and is the first such.
min_loop_cases :
    (s : List TlbEntry) (i m oldest : ℕ)
    → ((min_loop s i m oldest ≡ m) × AllFrom oldest s)
      ⊎ ((k : ℕ) × (o : TlbEntry) × (min_loop s i m oldest ≡ i + k)
          × IsOldest s k o
          × (o.timestamp < oldest))
unfolding min_loop
min_loop_cases [] i m oldest = inl (refl, λ j e h. ground arith)
min_loop_cases (x ∷ s) i m oldest = elim (Bool-cases (ltb x.timestamp oldest)) [
  | inl less ↦ rw less (elim (min_loop_cases s (i + 1) i x.timestamp) [
    | inl (e, all) ↦ inr (0, x, omega (arith, e), IsOldest-head x s all, ground arith)
    | inr (k, o, e, b, lt) ↦
        inr (suc k, o, omega (arith, e), IsOldest-cons x s k o lt b, ground arith)
  ])
  | inr more ↦ rw more (elim (min_loop_cases s (i + 1) m oldest) [
    | inl (e, all) ↦ inl (e, AllFrom-cons oldest x s (ground arith) all)
    | inr (k, o, e, b, lt) ↦
        inr (suc k, o, omega (arith, e), IsOldest-cons x s k o (ground arith) b, lt)
  ])
]

-- On a set that is not empty `evict_lru` removes exactly one entry: the first of those with the smallest time
-- stamp.
pub evict_lru-IsOldest :
    (x : TlbEntry) (s : List TlbEntry)
    → (m : ℕ) × (o : TlbEntry) × IsOldest (x ∷ s) m o × (evict_lru (x ∷ s) ≡ remove_at m (x ∷ s))
unfolding evict_lru
evict_lru-IsOldest x s = elim (min_loop_cases s 1 0 x.timestamp) [
  | inl (e, all) ↦ (0, x, IsOldest-head x s all, rw e)
  | inr (k, o, e, b, lt) ↦ (suc k, o, IsOldest-cons x s k o lt b, rw (e, add_comm 1 k, add-one))
]
