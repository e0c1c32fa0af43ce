-- ===== src/Device/Totals.antt =====
-- Sums of the values of a function and of the elements of a list, modulo 2 ^ 64 where `uint64_t` adds them.
use mathlib.Core.Path.{fun_ext, ap}
use mathlib.Core.List.{Perm, foldr}
use mathlib.Core.List.Perm
use native.Mathlib.Nat.{ℕ_set}
use gpu_vmm.Prelude.{
  ℕ, zero, suc, ◌+◌, ◌*◌, ◌%◌, ◌<◌, ◌≡◌, refl, sym, ◌∙◌, List, [], ◌∷◌, map, arith,
}
use gpu_vmm.Common.Words.{u64_mod, u64_add}

-- `f 0 + … + f (k - 1)`
unfoldable pub total : ℕ → (ℕ → ℕ) → ℕ
total zero f = 0
total (suc k) f = f 0 + total k (λ i. f (suc i))

unfoldable pub sum : List ℕ → ℕ
sum [] = 0
sum (x ∷ xs) = x + sum xs

pub total_congr : (k : ℕ) (f g : ℕ → ℕ) → ((i : ℕ) → i < k → f i ≡ g i) → total k f ≡ total k g
unfolding total
total_congr zero f g h = refl
total_congr (suc k) f g h =
    let first = h 0 (omega arith) in
    omega (
      arith,
      first,
      total_congr k (λ i. f (suc i)) (λ i. g (suc i)) (λ i p. h (suc i) (omega arith)),
    )

pub total_split : (a b : ℕ) (f : ℕ → ℕ) → total (a + b) f ≡ total a f + total b (λ i. f (a + i))
unfolding total
total_split zero b f =
    let e : (λ i. f (0 + i)) ≡ f =
      fun_ext (λ (i : ℕ). (let p : 0 + i ≡ i = omega arith in ap f p)) in
    let z : 0 + b ≡ b = omega arith in omega (arith, ap (total b) e, ap (λ n. total n f) z)
total_split (suc a) b f =
    let rest = total_split a b (λ i. f (suc i)) in
    let first : suc a + b ≡ suc (a + b) = omega arith in
    let later : (λ i. f (suc a + i)) ≡ (λ i. f (suc (a + i))) =
      fun_ext (λ (i : ℕ). (let p : suc a + i ≡ suc (a + i) = omega arith in ap f p)) in
    rw first (omega (arith, rest, ap (total b) later))

pub total_rows :
    (k m : ℕ) (f : ℕ → ℕ) → total m (λ a. total k (λ i. f (a * k + i))) ≡ total (m * k) f
unfolding total
total_rows k zero f = let e : 0 * k ≡ 0 = omega arith in rw e refl
total_rows k (suc m) f =
    let rows = total_rows k m (λ j. f (k + j)) in
    let next : (a i : ℕ) → suc a * k + i ≡ k + (a * k + i) = λ a i. omega arith in
    let shifted : total m (λ a. total k (λ i. f (suc a * k + i))) ≡ total (m * k) (λ j. f (k + j)) =
      ap (total m) (fun_ext (λ (a : ℕ). ap (total k) (fun_ext (λ (i : ℕ). ap f (next a i)))))
      ∙ rows in
    let all : suc m * k ≡ k + m * k = omega arith in
    let first : total k (λ i. f (0 * k + i)) ≡ total k f =
      ap (total k) (fun_ext (λ (i : ℕ). let e : 0 * k + i ≡ i = omega arith in ap f e)) in
    omega (arith, first, shifted, total_split k (m * k) f, ap (λ n. total n f) all)

pub total-u64_add :
    (k : ℕ) (f g : ℕ → ℕ)
    → total k (λ i. u64_add (f i) (g i)) % u64_mod ≡ (total k f + total k g) % u64_mod
unfolding total
total-u64_add zero f g = refl
total-u64_add (suc k) f g = omega (arith, total-u64_add k (λ i. f (suc i)) (λ i. g (suc i)))

pub total_one : (f : ℕ → ℕ) → total 1 f ≡ f 0
unfolding total
total_one f = omega arith

pub total_mod : (k : ℕ) (f : ℕ → ℕ) → total k (λ i. f i % u64_mod) % u64_mod ≡ total k f % u64_mod
unfolding total
total_mod zero f = refl
total_mod (suc k) f = omega (arith, total_mod k (λ i. f (suc i)))

-- The blocks of a grid, the last one first.
unfoldable pub grid_blocks : ℕ → List ℕ
grid_blocks zero = []
grid_blocks (suc blocks) = blocks ∷ grid_blocks blocks

pub sum-grid_blocks : (blocks : ℕ) (f : ℕ → ℕ) → sum (map f (grid_blocks blocks)) ≡ total blocks f
unfolding grid_blocks sum total
sum-grid_blocks zero f = refl
sum-grid_blocks (suc blocks) f =
    let e : blocks + 1 ≡ suc blocks = omega arith in
    let z : blocks + 0 ≡ blocks = omega arith in
    let last = total_split blocks 1 f in omega (arith, sum-grid_blocks blocks f, rw (e, z) at last)

pub sum-foldr : (xs : List ℕ) → sum xs ≡ foldr (λ x n. x + n) 0 xs
unfolding sum
sum-foldr [] = refl
sum-foldr (x ∷ xs) = omega (arith, sum-foldr xs)

pub sum-Perm : {xs ys : List ℕ} → Perm xs ys → sum xs ≡ sum ys
sum-Perm {xs} {ys} p =
    sum-foldr xs
    ∙ Perm.foldr-eq ℕ_set (λ x n. x + n) (λ a b n. omega arith) p 0
    ∙ sym (sum-foldr ys)

pub u64_add_regroup : (a b c : ℕ) → (u64_add a b + c) % u64_mod ≡ (a + (b + c)) % u64_mod
u64_add_regroup a b c = omega arith

pub u64_add-lt : (a b : ℕ) → u64_add a b < u64_mod
u64_add-lt a b = omega arith
