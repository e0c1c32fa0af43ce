-- ===== src/Device/Stores.antt =====
-- How many threads of `kernel_random_access` have stored to an element.
use gpu_vmm.Prelude.{
  ℕ, zero, suc, ◌+◌, ◌≤◌, ◌≡◌, refl, ap, Option, none, some, List, [], ◌∷◌, length, set, get_elem?,
  arith, if◌then◌else◌, ◌==◌,
}
use gpu_vmm.Device.Race.{Progress, fresh, done, loaded, page_index}

-- Whether thread `idx` has stored to element `j`.
unfoldable pub stored_to : Option ℕ → ℕ → Progress → ℕ
stored_to (some page_idx) j done = if page_idx == j then 1 else 0
stored_to page_idx j progress = 0

module _ (indices : List ℕ) (num_elements j : ℕ) where
  -- How many threads, of those from `idx` on, have stored to element `j`.
  unfoldable pub stores : ℕ → List Progress → ℕ
  unfolding stored_to
  stores idx [] = 0
  stores idx (progress ∷ threads) =
      stored_to (page_index indices num_elements idx) j progress + stores (idx + 1) threads

  pub stores-set :
      (idx k : ℕ) (threads : List Progress) (before after : Progress)
      → get_elem? threads k ≡ some before
      → stores idx (set threads k after)
          + stored_to (page_index indices num_elements (idx + k)) j before
        ≡ stores idx threads + stored_to (page_index indices num_elements (idx + k)) j after
  unfolding stores
  stores-set idx k [] before after h = absurd (ground (arith, h))
  stores-set idx zero (p ∷ threads) before after h =
      let e : idx + 0 ≡ idx = omega arith in
      let same : p ≡ before = ground (arith, h) in rw (e, same) (omega arith)
  stores-set idx (suc k) (p ∷ threads) before after h =
      let e : idx + 1 + k ≡ idx + suc k = omega arith in
      let rest = rw e at (stores-set (idx + 1) k threads before after h) in omega (arith, rest)

  pub stored_to-le : (o : Option ℕ) (p : Progress) → stored_to o j p ≤ 1
  unfolding stored_to
  stored_to-le none p = ground arith
  stored_to-le (some x) fresh = ground arith
  stored_to-le (some x) (loaded v) = ground arith
  stored_to-le (some x) done = ground arith

  pub stores-le : (idx : ℕ) (threads : List Progress) → stores idx threads ≤ length threads
  unfolding stores
  stores-le idx [] = omega arith
  stores-le idx (p ∷ threads) =
      omega
        (arith, stores-le (idx + 1) threads, stored_to-le (page_index indices num_elements idx) p)

  -- How `stores` changes with thread `k`.
  pub stores-act :
      (k p : ℕ) (threads : List Progress) (before after : Progress)
      → page_index indices num_elements k ≡ some p
      → get_elem? threads k ≡ some before
      → stores 0 (set threads k after) + stored_to (some p) j before
        ≡ stores 0 threads + stored_to (some p) j after
  stores-act k p threads before after target h =
      let e : 0 + k ≡ k = omega arith in rw (e, target) at (stores-set 0 k threads before after h)

-- Threads that have not begun.
unfoldable pub all_fresh : ℕ → List Progress
all_fresh zero = []
all_fresh (suc n) = fresh ∷ all_fresh n

pub get_elem?-all_fresh : (n k w : ℕ) → get_elem? (all_fresh n) k ≡ some (loaded w) → ⊥
unfolding all_fresh
get_elem?-all_fresh zero k w h = ground (arith, h)
get_elem?-all_fresh (suc n) zero w h = ground (arith, h)
get_elem?-all_fresh (suc n) (suc k) w h = get_elem?-all_fresh n k w h

pub length-all_fresh : (n : ℕ) → length (all_fresh n) ≡ n
unfolding all_fresh
length-all_fresh zero = refl
length-all_fresh (suc n) = ap suc (length-all_fresh n)

pub stored_to-fresh : (o : Option ℕ) (j : ℕ) → stored_to o j fresh ≡ 0
unfolding stored_to
stored_to-fresh none j = refl
stored_to-fresh (some x) j = refl

pub stores-all_fresh :
    (indices : List ℕ) (num_elements j idx n : ℕ)
    → stores indices num_elements j idx (all_fresh n) ≡ 0
unfolding stores all_fresh
stores-all_fresh indices num_elements j idx zero = refl
stores-all_fresh indices num_elements j idx (suc n) = omega (
  arith,
  stored_to-fresh (page_index indices num_elements idx) j,
  stores-all_fresh indices num_elements j (idx + 1) n,
)
