-- ===== src/Device/Elements.antt =====
-- A launch whose elements are all in the array, element by element.
use mathlib.Core.Option
use mathlib.Core.Path.{ap₂}
use gpu_vmm.Prelude.{
  set, ℕ, zero, suc, ◌+◌, ◌≡◌, refl, sym, ◌∙◌, false, ◌&&◌, none, some, List, [], ◌∷◌, arith,
  if◌then◌else◌, ltb, ◌==◌, get_elem?, Bool-cases, Option-cases, inl, inr, ==→eq, ==→ne,
  get_elem?-set_self, get_elem?-set_ne, get_elem?-lt, length, length-set,
}

-- How often a thread has the index.
unfoldable pub times : ℕ → List ℕ → ℕ
times i [] = 0
times i (x ∷ xs) = (if x == i then 1 else 0) + times i xs

-- `for (i = 0; i < n; i++) pages[i] = after(i, pages[i])`, with the elements below `i` done.
unfoldable pub each : (ℕ → ℕ → ℕ) → ℕ → ℕ → List ℕ → List ℕ
each after n i [] = []
each after n i (x ∷ xs) = (if ltb i n then after i x else x) ∷ each after n (i + 1) xs

-- A thread that is below `n`, or whose element is in the array.
unfoldable pub treat : (ℕ → ℕ → ℕ) → ℕ → ℕ → List ℕ → List ℕ
treat after n idx pages =
    if ltb idx n
    then elim (get_elem? pages idx) [ none ↦ pages | some val ↦ set pages idx (after idx val) ]
    else pages

unfoldable pub treat_all : (ℕ → ℕ → ℕ) → ℕ → List ℕ → List ℕ → List ℕ
unfolding treat
treat_all after n [] pages = pages
treat_all after n (idx ∷ order) pages = treat_all after n order (treat after n idx pages)

module _ (after : ℕ → ℕ → ℕ) (n : ℕ) where
  pub length-treat : (idx : ℕ) (pages : List ℕ) → length (treat after n idx pages) ≡ length pages
  unfolding treat
  length-treat idx pages = elim (Bool-cases (ltb idx n)) [
    | inr past ↦ rw past refl
    | inl below ↦ elim (Option-cases (get_elem? pages idx)) [
      | inl e ↦ ground (arith, below, e)
      | inr (v, e) ↦ ground (arith, below, e, length-set pages idx (after idx v))
    ]
  ]

  get_elem?-treat :
      (idx j : ℕ) (pages : List ℕ)
      → get_elem? (treat after n idx pages) j ≡ (
          if idx == j && ltb idx n
          then Option.map (after j) (get_elem? pages j)
          else get_elem? pages j)
  unfolding treat
  get_elem?-treat idx j pages = elim (Bool-cases (ltb idx n)) [
    | inr past ↦ rw past (ground arith)
    | inl below ↦ elim (Option-cases (get_elem? pages idx)) [
      | inl e ↦ ground (arith, e)
      | inr (v, e) ↦ elim (Bool-cases (idx == j)) [
        | inl here ↦
            let same : j ≡ idx = sym (==→eq idx j here) in
            let written = get_elem?-set_self pages idx (after idx v) (get_elem?-lt pages idx v e) in
            rw (below, e, here) (rw (same, written, e))
        | inr there ↦
            rw (below, e, there) (get_elem?-set_ne pages idx j (after idx v) (==→ne idx j there))
      ]
    ]
  ]

  -- An index that no thread has keeps its element.
  pub treat_all-unreached :
      (order : List ℕ) (j : ℕ) (pages : List ℕ)
      → times j order ≡ 0
      → get_elem? (treat_all after n order pages) j ≡ get_elem? pages j
  unfolding treat_all times
  treat_all-unreached [] j pages h = refl
  treat_all-unreached (idx ∷ order) j pages h =
      let apart : (idx == j) ≡ false = ground arith in
      let rest : times j order ≡ 0 = ground arith in
      treat_all-unreached order j (treat after n idx pages) rest
      ∙ get_elem?-treat idx j pages
      ∙ rw apart

  -- An index that one thread has is treated once.
  pub treat_all-reached :
      (order : List ℕ) (j : ℕ) (pages : List ℕ)
      → times j order ≡ 1
      → get_elem? (treat_all after n order pages) j
        ≡ (if ltb j n then Option.map (after j) (get_elem? pages j) else get_elem? pages j)
  unfolding treat_all times
  treat_all-reached [] j pages h = absurd (omega arith)
  treat_all-reached (idx ∷ order) j pages h =
      let now = get_elem?-treat idx j pages in
      elim (Bool-cases (idx == j)) [
        | inl here ↦
            let rest : times j order ≡ 0 = ground arith in
            let same = ==→eq idx j here in
            treat_all-unreached order j (treat after n idx pages) rest ∙ now ∙ rw (here, same)
        | inr there ↦
            let rest : times j order ≡ 1 = ground arith in
            treat_all-reached order j (treat after n idx pages) rest ∙ rw (now, there)
      ]

  pub get_elem?-each :
      (i j : ℕ) (pages : List ℕ)
      → get_elem? (each after n i pages) j ≡ (
          if ltb (i + j) n
          then Option.map (after (i + j)) (get_elem? pages j)
          else get_elem? pages j)
  unfolding each
  get_elem?-each i j [] = ground arith
  get_elem?-each i zero (x ∷ xs) = let e : i + 0 ≡ i = omega arith in rw e (ground arith)
  get_elem?-each i (suc j) (x ∷ xs) =
      let e : i + 1 + j ≡ i + suc j = omega arith in rw e at (get_elem?-each (i + 1) j xs)

pub get_elem?_ext : (xs ys : List ℕ) → ((i : ℕ) → get_elem? xs i ≡ get_elem? ys i) → xs ≡ ys
get_elem?_ext [] [] h = refl
get_elem?_ext [] (y ∷ ys) h = let z = h 0 in absurd (ground (arith, z))
get_elem?_ext (x ∷ xs) [] h = let z = h 0 in absurd (ground (arith, z))
get_elem?_ext (x ∷ xs) (y ∷ ys) h =
    let z = h 0 in ap₂ (◌∷◌) (ground (arith, z)) (get_elem?_ext xs ys (λ i. h (suc i)))
