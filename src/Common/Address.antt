-- ===== src/Common/Address.antt =====
-- The address arithmetic of src/vm/Common.h.
use native.Mathlib.Nat.{mul-div_cancel, mod-eq_of_lt, div-mul-le_self}
use gpu_vmm.Prelude.{ℕ, ◌+◌, ◌-◌, ◌*◌, ◌/◌, ◌<◌, ◌≤◌, ◌≡◌, refl, arith}
use gpu_vmm.Common.Words.{u64_mod, u64_add, u64_sub, u64_mul}

-- A page size of 0 divides by zero in the source: every theorem has a positive page size.
unfoldable pub vaddr_to_vpn : ℕ → ℕ → ℕ
vaddr_to_vpn vaddr page_size = vaddr / page_size

unfoldable pub vpn_to_vaddr : ℕ → ℕ → ℕ
vpn_to_vaddr vpn page_size = u64_mul vpn page_size

unfoldable pub align_to_page : ℕ → ℕ → ℕ
align_to_page size page_size = u64_mul (u64_sub (u64_add size page_size) 1 / page_size) page_size

-- For an offset below the page size, where the address does not wrap, `vaddr_to_vpn` of the address at that offset
-- in a page gives the page.
pub vaddr_to_vpn-vpn_to_vaddr :
    (vpn offset page_size : ℕ)
    → offset < page_size
    → vpn * page_size + offset < u64_mod
    → vaddr_to_vpn (u64_add (vpn_to_vaddr vpn page_size) offset) page_size ≡ vpn
unfolding vaddr_to_vpn vpn_to_vaddr
vaddr_to_vpn-vpn_to_vaddr vpn offset page_size h k = grind arith

-- The page of an address starts at most a page below it.
pub vpn_to_vaddr-vaddr_to_vpn :
    (vaddr page_size : ℕ)
    → 0 < page_size
    → vaddr < u64_mod
    → (vpn_to_vaddr (vaddr_to_vpn vaddr page_size) page_size ≤ vaddr)
      × (vaddr < vpn_to_vaddr (vaddr_to_vpn vaddr page_size) page_size + page_size)
unfolding vaddr_to_vpn vpn_to_vaddr
vpn_to_vaddr-vaddr_to_vpn vaddr page_size h k = grind arith

-- For a positive page size, where the sum with the size does not reach 2 ^ 64, `align_to_page` gives the least
-- multiple of the page size that is not below the size.
pub align_to_page-rounds_up :
    (size page_size : ℕ)
    → 0 < page_size
    → size + page_size < u64_mod
    → (size ≤ align_to_page size page_size)
      × (align_to_page size page_size < size + page_size)
      × (align_to_page size page_size / page_size * page_size ≡ align_to_page size page_size)
unfolding align_to_page
align_to_page-rounds_up size page_size h k =
    let q = (size + page_size - 1) / page_size in
    let sum : u64_sub (u64_add size page_size) 1 ≡ size + page_size - 1 = omega arith in
    let fits : q * page_size ≤ size + page_size - 1 =
      div-mul-le_self (size + page_size - 1) page_size in
    let whole : u64_mul q page_size ≡ q * page_size = mod-eq_of_lt (omega arith) in
    rw (sum, whole) (grind arith, grind arith, rw (mul-div_cancel q h) refl)

-- For a size and a page size below 2 ^ 64 whose sum exceeds 2 ^ 64, `align_to_page` wraps to 0.
pub align_to_page_wraps :
    (size page_size : ℕ)
    → size < u64_mod
    → page_size < u64_mod
    → u64_mod < size + page_size
    → align_to_page size page_size ≡ 0
unfolding align_to_page
align_to_page_wraps size page_size h k w = grind arith
