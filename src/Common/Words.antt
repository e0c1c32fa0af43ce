-- ===== src/Common/Words.antt =====
-- Fixed-width arithmetic: `size_t` and `uint64_t` are numbers below 2 ^ 64, `uint32_t` below 2 ^ 32.
use gpu_vmm.Prelude.{ℕ, ◌+◌, ◌-◌, ◌*◌, ◌%◌, ◌^◌, ◌<◌, ◌≤◌, ◌≡◌, arith}

abbrev pub u64_mod : ℕ
u64_mod = 2 ^ 64

abbrev pub u32_mod : ℕ
u32_mod = 2 ^ 32

abbrev pub u64_add : ℕ → ℕ → ℕ
u64_add a b = (a + b) % u64_mod

-- `-` on ℕ stops at 0, so the modulus is added first.
abbrev pub u64_sub : ℕ → ℕ → ℕ
u64_sub a b = (a + u64_mod - b) % u64_mod

abbrev pub u64_mul : ℕ → ℕ → ℕ
u64_mul a b = (a * b) % u64_mod

abbrev pub u32_add : ℕ → ℕ → ℕ
u32_add a b = (a + b) % u32_mod

pub u64_add_small : (a b : ℕ) → a + b < u64_mod → u64_add a b ≡ a + b
u64_add_small a b h = omega arith

pub u64_sub_small : (a b : ℕ) → a < u64_mod → b ≤ a → u64_sub a b ≡ a - b
u64_sub_small a b h k = omega arith
