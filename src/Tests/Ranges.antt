-- ===== src/Tests/Ranges.antt =====
-- Addresses, and ranges of pages in a table with page 7.
use gpu_vmm.Prelude.{ℕ, ◌≡◌, ◌⊎◌, refl, true, [], ◌∷◌, arith}
use gpu_vmm.Prelude.Assoc.{find, insert}
use gpu_vmm.Common.Address.{align_to_page, align_to_page_wraps}
use gpu_vmm.PageTable.{PageTable, blank, allocate_vpn_range, allocate_loop}
use gpu_vmm.PageTable.Range.{Added, Stopped, allocate_vpn_range_cases}

abbrev pub one_page : PageTable
one_page = record { page_size = 16; num_pages = 100; entries = (7, blank) ∷ [] }

align_to_page_wraps_example : align_to_page 0xffff_ffff_ffff_ffff 4096 ≡ 0
align_to_page_wraps_example =
    align_to_page_wraps 0xffff_ffff_ffff_ffff 4096 (omega arith) (omega arith) (omega arith)

-- The range from 5 to 8 meets page 7.
allocate_vpn_range_cases_example :
    Added 5 4 one_page (allocate_vpn_range one_page 5 4)
    ⊎ ((k : ℕ) × Stopped 5 4 k one_page (allocate_vpn_range one_page 5 4))
allocate_vpn_range_cases_example = allocate_vpn_range_cases one_page 5 4 (omega arith)

accepted : (allocate_vpn_range one_page 2 3).1 ≡ true
unfolding allocate_vpn_range allocate_loop find insert
accepted = refl
