-- ===== src/Device/Checksum.antt =====
-- `compute_checksum` of src/device/device_helpers.cu.
use Prim.Native.Nat.{max, bit_or, bit_or-bitwise, digits}
use native.Mathlib.Nat.{max-zero, zero-max}
use gpu_vmm.Prelude.{
  ℕ, zero, suc, ◌+◌, ◌*◌, ◌/◌, ◌%◌, ◌^◌, ◌≤◌, ◌<◌, ◌≡◌, ◌≢◌, refl, sym, ◌∙◌, List, [], ◌∷◌, ◌++◌,
  arith,
}
use gpu_vmm.Common.Words.{u64_mod, u64_add}

-- `(checksum << 1) | (checksum >> 63)`
unfoldable pub rotate : ℕ → ℕ
rotate checksum = bit_or (checksum * 2 % u64_mod) (checksum / 2 ^ 63)

-- The loop over the bytes, with the sum so far.
unfoldable pub checksum_loop : ℕ → List ℕ → ℕ
unfolding rotate
checksum_loop checksum [] = checksum
checksum_loop checksum (byte ∷ data_) = checksum_loop (rotate (u64_add checksum byte)) data_

unfoldable pub compute_checksum : List ℕ → ℕ
unfolding checksum_loop
compute_checksum data_ = checksum_loop 0 data_

digits-zero : (n a : ℕ) → a ≤ n → digits (λ b. b) max n a 0 ≡ a
digits-zero zero a h = omega arith
digits-zero (suc n) zero h = refl
digits-zero (suc n) (suc a) h =
    let low = max-zero (suc a % 2) in
    rw (digits-zero n (suc a / 2) (omega arith), low) (omega arith)

-- Where the numbers have no bit in common, `|` is the sum.
bit_or-even : (a b : ℕ) → a % 2 ≡ 0 → b < 2 → bit_or a b ≡ a + b
bit_or-even zero b e h = (λ i. bit_or-bitwise 0 b i) ∙ omega arith
bit_or-even (suc a) b e h =
    let half : b / 2 ≡ 0 = omega arith in
    let low : b % 2 ≡ b = omega arith in
    (λ i. bit_or-bitwise (suc a) b i)
    ∙ rw (half, e, low, digits-zero a (suc a / 2) (omega arith), zero-max b) (omega arith)

rotate_sum : (c : ℕ) → c < u64_mod → rotate c ≡ c * 2 % u64_mod + c / 2 ^ 63
unfolding rotate
rotate_sum c h = bit_or-even (c * 2 % u64_mod) (c / 2 ^ 63) (omega arith) (omega arith)

-- One round loses nothing of the sum, and nothing of the byte.
round-injective :
    (c d x y : ℕ)
    → c < u64_mod
    → d < u64_mod
    → rotate (u64_add c x) ≡ rotate (u64_add d y)
    → u64_add c x ≡ u64_add d y
round-injective c d x y h k e =
    let left = rotate_sum (u64_add c x) (omega arith) in
    let right = rotate_sum (u64_add d y) (omega arith) in
    let same = sym left ∙ e ∙ right in omega (arith, same)

rotate-lt : (c : ℕ) → c < u64_mod → rotate c < u64_mod
rotate-lt c h = omega (arith, rotate_sum c h)

checksum_loop-injective :
    (bytes : List ℕ) (c d : ℕ)
    → c < u64_mod
    → d < u64_mod
    → checksum_loop c bytes ≡ checksum_loop d bytes
    → c ≡ d
unfolding checksum_loop
checksum_loop-injective [] c d h k e = e
checksum_loop-injective (x ∷ bytes) c d h k e =
    let after =
      checksum_loop-injective bytes (rotate (u64_add c x)) (rotate (u64_add d x))
        (rotate-lt (u64_add c x) (omega arith)) (rotate-lt (u64_add d x) (omega arith)) e in
    let same = round-injective c d x x h k after in omega (arith, same)

checksum_loop-append :
    (xs ys : List ℕ) (c : ℕ) → checksum_loop c (xs ++ ys) ≡ checksum_loop (checksum_loop c xs) ys
unfolding checksum_loop
checksum_loop-append [] ys c = refl
checksum_loop-append (x ∷ xs) ys c = checksum_loop-append xs ys (rotate (u64_add c x))

checksum_loop-lt : (bytes : List ℕ) (c : ℕ) → c < u64_mod → checksum_loop c bytes < u64_mod
unfolding checksum_loop
checksum_loop-lt [] c h = h
checksum_loop-lt (x ∷ bytes) c h =
    checksum_loop-lt bytes (rotate (u64_add c x)) (rotate-lt (u64_add c x) (omega arith))

-- Two blocks of bytes that differ in one byte only have different checksums.
pub compute_checksum-one_byte :
    (before after : List ℕ) (x y : ℕ)
    → x < 256
    → y < 256
    → x ≢ y
    → compute_checksum (before ++ x ∷ after) ≢ compute_checksum (before ++ y ∷ after)
unfolding compute_checksum checksum_loop
compute_checksum-one_byte before after x y h k ne e =
    let c = checksum_loop 0 before in
    let small = checksum_loop-lt before 0 (omega arith) in
    let split =
      sym (checksum_loop-append before (x ∷ after) 0)
      ∙ e
      ∙ checksum_loop-append before (y ∷ after) 0 in
    let rounds =
      checksum_loop-injective after (rotate (u64_add c x)) (rotate (u64_add c y))
        (rotate-lt (u64_add c x) (omega arith)) (rotate-lt (u64_add c y) (omega arith)) split in
    let same = round-injective c c x y small small rounds in ne (omega (arith, same))
