-- ===== src/PageAllocator/Bitmap.antt =====
-- The scan for a free frame in a page bitmap, and how the number of set bits changes with one bit.
use gpu_vmm.Prelude.{
  ℕ, zero, suc, ◌+◌, ◌≤◌, ◌<◌, ◌≡◌, refl, ap, Bool, true, false, Option, none, some, List, [], ◌∷◌,
  arith, length, set, get_elem?, Option-cases, inl, inr, if◌then◌else◌, ◌==◌,
}

abbrev shift : Option ℕ → Option ℕ
shift none = none
shift (some i) = some (suc i)

-- The loop `for (i = 0; i < size; i++) if (!bitmap[i])` as the first index at which it stops.
unfoldable pub first_free : List Bool → Option ℕ
first_free [] = none
first_free (b ∷ bs) = let rest = shift (first_free bs) in if b then rest else some 0

-- `i < size && bitmap[i]`
unfoldable pub is_set : List Bool → ℕ → Bool
is_set bs i = elim (get_elem? bs i) [ none ↦ false | some b ↦ b ]

-- The number of frames in use.
unfoldable pub used : List Bool → ℕ
used [] = 0
used (b ∷ bs) = if b then suc (used bs) else used bs

-- The frame that the scan finds is free, and all frames below it are in use.
pub first_free-some :
    (bs : List Bool) (i : ℕ)
    → first_free bs ≡ some i
    → (get_elem? bs i ≡ some false) × ((j : ℕ) → j < i → get_elem? bs j ≡ some true)
unfolding first_free
first_free-some [] i h = absurd (ground (arith, h))
first_free-some (false ∷ bs) i h =
    let e : i ≡ 0 = ground arith in rw e (refl, λ j lt. absurd (omega arith))
first_free-some (true ∷ bs) i h = elim (Option-cases (first_free bs)) [
  | inl e ↦ absurd (ground (arith, e, h))
  | inr (k, e) ↦
      let ih = first_free-some bs k e in
      let at_suc : i ≡ suc k = ground (arith, e, h) in
      rw at_suc (ih.0, elim [ zero ↦ λ _. refl | suc j ↦ λ lt. ih.1 j (omega arith) ])
]

-- The scan fails only when every frame is in use.
pub first_free-none : (bs : List Bool) → first_free bs ≡ none → used bs ≡ length bs
unfolding first_free used
first_free-none [] h = refl
first_free-none (b ∷ bs) h = ground (arith, first_free-none bs)

pub used-le-length : (bs : List Bool) → used bs ≤ length bs
unfolding used
used-le-length [] = omega arith
used-le-length (b ∷ bs) = ground (arith, used-le-length bs)

pub used-set-true :
    (bs : List Bool) (i : ℕ) → get_elem? bs i ≡ some false → used (set bs i true) ≡ used bs + 1
unfolding used
used-set-true [] i h = absurd (ground (arith, h))
used-set-true (b ∷ bs) zero h = ground arith
used-set-true (b ∷ bs) (suc i) h = ground (arith, used-set-true bs i h)

pub used-set-false :
    (bs : List Bool) (i : ℕ) → get_elem? bs i ≡ some true → used (set bs i false) + 1 ≡ used bs
unfolding used
used-set-false [] i h = absurd (ground (arith, h))
used-set-false (b ∷ bs) zero h = ground arith
used-set-false (b ∷ bs) (suc i) h = ground (arith, used-set-false bs i h)

pub set_back :
    (bs : List Bool) (i : ℕ) → get_elem? bs i ≡ some false → set (set bs i true) i false ≡ bs
set_back [] i h = refl
set_back (b ∷ bs) zero h = ground arith
set_back (b ∷ bs) (suc i) h = ap (◌∷◌ b) (set_back bs i h)

pub is_set-get_elem? : (bs : List Bool) (i : ℕ) → is_set bs i ≡ true → get_elem? bs i ≡ some true
unfolding is_set
is_set-get_elem? bs i h = ground arith

pub is_set-set :
    (bs : List Bool) (i j : ℕ) (b : Bool)
    → i < length bs
    → is_set (set bs i b) j ≡ (if i == j then b else is_set bs j)
unfolding is_set
is_set-set [] i j b h = absurd (omega arith)
is_set-set (x ∷ bs) zero zero b h = refl
is_set-set (x ∷ bs) zero (suc j) b h = ground arith
is_set-set (x ∷ bs) (suc i) zero b h = ground arith
is_set-set (x ∷ bs) (suc i) (suc j) b h = ground (arith, is_set-set bs i j b (omega arith))
