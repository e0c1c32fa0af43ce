-- ===== src/Common/Hash.antt =====
-- `hash_vpn` of src/vm/Common.h, the 32-bit FNV-1a hash of the eight bytes of a page number.
use Prim.Native.Nat.{bit_xor, bit_and}
use gpu_vmm.Prelude.{ℕ, zero, suc, ◌+◌, ◌*◌, ◌/◌, ◌%◌, ◌^◌, ◌<◌, ◌≡◌, refl, arith}
use gpu_vmm.Common.Words.{u32_mod}

-- The rounds that are left, the round's number `i`, the page number and the hash so far.
hash_rounds : ℕ → ℕ → ℕ → ℕ → ℕ
hash_rounds zero i vpn hash = hash
hash_rounds (suc left) i vpn hash =
    hash_rounds left (i + 1) vpn
      ((bit_xor hash (bit_and (vpn / 2 ^ (i * 8)) 0xFF) % u32_mod * 16777619) % u32_mod)

unfoldable pub hash_vpn : ℕ → ℕ
unfolding hash_rounds
hash_vpn vpn = hash_rounds 8 0 vpn 2166136261

hash_rounds-lt : (left i vpn hash : ℕ) → hash < u32_mod → hash_rounds left i vpn hash < u32_mod
unfolding hash_rounds
hash_rounds-lt zero i vpn hash h = h
hash_rounds-lt (suc left) i vpn hash h = hash_rounds-lt left (i + 1) vpn _ (omega arith)

pub hash_vpn-lt : (vpn : ℕ) → hash_vpn vpn < u32_mod
unfolding hash_vpn
hash_vpn-lt vpn = hash_rounds-lt 8 0 vpn 2166136261 (omega arith)

hash_vpn_zero : hash_vpn 0 ≡ 2615243109
unfolding hash_vpn
hash_vpn_zero = refl
