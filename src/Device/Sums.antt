-- ===== src/Device/Sums.antt =====
-- `kernel_checksum` against the sum of the elements.
use mathlib.Core.Path.{ap}
use mathlib.Core.List.{Perm}
use mathlib.Core.List.Perm
use gpu_vmm.Prelude.{
  ℕ, zero, suc, ◌+◌, ◌*◌, ◌%◌, ◌≤◌, ◌<◌, ◌≡◌, refl, sym, ◌∙◌, none, some, List, [], ◌∷◌, map, arith,
  Option-cases, Bool-cases, if◌then◌else◌, ltb, ok, true, get_elem?-lt, inl, inr, length, get_elem?,
}
use gpu_vmm.Common.Words.{u64_mod, u32_mod, u64_add}
use gpu_vmm.Device.{block_size, block_threads, grid_size, thread_index}
use gpu_vmm.Device.Grid.{grid_size-covers}
use gpu_vmm.Device.Reduce.{
  element, shuffle_add, down_loop, up_loop, warp_sum, block_sum, all_held, kernel_checksum,
}
use gpu_vmm.Device.Totals.{
  total, sum, total_congr, total_split, total_rows, total-u64_add, total_one, total_mod,
  grid_blocks, sum-grid_blocks, sum-Perm, u64_add_regroup, u64_add-lt,
}

-- One round of the shuffles, in the lanes below the offset, each of which reads a lane that executes.
total-shuffle_add :
    (active offset : ℕ) (stale : ℕ → ℕ → ℕ) (val : ℕ → ℕ)
    → offset + offset ≤ active
    → total offset (shuffle_add active stale offset val) % u64_mod
      ≡ total (offset + offset) val % u64_mod
unfolding shuffle_add
total-shuffle_add active offset stale val h =
    let reads =
      total_congr offset (shuffle_add active stale offset val)
        (λ i. u64_add (val i) (val (offset + i)))
        (λ i p.
          let comm : i + offset ≡ offset + i = omega arith in
          let inside : offset + i < active = omega arith in rw comm (ground arith)) in
    rw reads (
      total-u64_add offset val (λ i. val (offset + i))
      ∙ ap (λ n. n % u64_mod) (sym (total_split offset offset val)))

shuffle_add-lt :
    (active offset lane : ℕ) (stale : ℕ → ℕ → ℕ) (val : ℕ → ℕ)
    → shuffle_add active stale offset val lane < u64_mod
unfolding shuffle_add
shuffle_add-lt active offset lane stale val = omega arith

down_loop_lem : (val : ℕ → ℕ) → down_loop 6 16 val 0 ≡ total 32 val % u64_mod
unfolding down_loop
down_loop_lem val =
    let idle : ℕ → ℕ → ℕ = λ o lane. 0 in
    let v1 = shuffle_add 32 idle 16 val in
    let v2 = shuffle_add 32 idle 8 v1 in
    let v3 = shuffle_add 32 idle 4 v2 in
    let v4 = shuffle_add 32 idle 2 v3 in
    let v5 = shuffle_add 32 idle 1 v4 in
    omega (
      arith,
      total-shuffle_add 32 16 idle val (omega arith),
      total-shuffle_add 32 8 idle v1 (omega arith),
      total-shuffle_add 32 4 idle v2 (omega arith),
      total-shuffle_add 32 2 idle v3 (omega arith),
      total-shuffle_add 32 1 idle v4 (omega arith),
      total_one v5,
      shuffle_add-lt 32 1 0 idle v4,
    )

up_loop_lem : (stale : ℕ → ℕ → ℕ) (val : ℕ → ℕ) → up_loop stale 4 1 val 0 ≡ total 8 val % u64_mod
unfolding up_loop total shuffle_add
up_loop_lem stale val = omega arith

-- The element's share of the sum.
pub share : List ℕ → ℕ → ℕ
share pages idx = elim (get_elem? pages idx) [ none ↦ 0 | some val ↦ val ]

total-share : (pages : List ℕ) (k : ℕ) → length pages ≤ k → total k (share pages) ≡ sum pages
unfolding total share sum
total-share [] zero h = refl
total-share [] (suc k) h = let rest = total-share [] k (omega arith) in omega (arith, rest)
total-share (x ∷ xs) zero h = absurd (omega arith)
total-share (x ∷ xs) (suc k) h = let rest = total-share xs k (omega arith) in omega (arith, rest)

thread_index-eq :
    (block thread : ℕ)
    → block * block_size + thread < u32_mod
    → thread_index block thread ≡ block * block_size + thread
unfolding thread_index
thread_index-eq block thread h = omega arith

element-share : (pages : List ℕ) (idx : ℕ) → element (length pages) pages idx ≡ share pages idx
unfolding element share
element-share pages idx = elim (Option-cases (get_elem? pages idx)) [
  | inl e ↦ ground (arith, e)
  | inr (v, e) ↦ let inside = get_elem?-lt pages idx v e in ground (arith, e, inside)
]

module _ (pages : List ℕ) (block : ℕ) (h : block * block_size + block_size ≤ u32_mod) where
  warp_sum_lem :
      (warp : ℕ)
      → warp < 8
      → warp_sum (length pages) pages block warp
        ≡ total 32 (λ i. share pages (block * block_size + (warp * 32 + i))) % u64_mod
  unfolding warp_sum
  warp_sum_lem warp p =
      down_loop_lem (λ i. element (length pages) pages (thread_index block (warp * 32 + i)))
      ∙ ap (λ n. n % u64_mod)
          (total_congr 32 (λ i. element (length pages) pages (thread_index block (warp * 32 + i)))
            (λ i. share pages (block * block_size + (warp * 32 + i)))
            (λ i q.
              element-share pages (thread_index block (warp * 32 + i))
              ∙ ap (share pages) (thread_index-eq block (warp * 32 + i) (omega arith))))

  block_sum_lem :
      (stale : ℕ → ℕ → ℕ)
      → block_sum stale (length pages) pages block
        ≡ total block_size (λ i. share pages (block * block_size + i)) % u64_mod
  unfolding block_sum
  block_sum_lem stale =
      let row = λ (warp : ℕ). total 32 (λ i. share pages (block * block_size + (warp * 32 + i))) in
      up_loop_lem stale (warp_sum (length pages) pages block)
      ∙ ap (λ n. n % u64_mod)
          (total_congr 8 (warp_sum (length pages) pages block) (λ warp. row warp % u64_mod)
            warp_sum_lem)
      ∙ total_mod 8 row
      ∙ ap (λ n. n % u64_mod) (total_rows 32 8 (λ i. share pages (block * block_size + i)))

all_held_lem : (pages order : List ℕ) → all_held (length pages) pages order ≡ true
unfolding all_held
all_held_lem pages [] = refl
all_held_lem pages (idx ∷ order) =
    let first : (if ltb idx (length pages) then ltb idx (length pages) else true) ≡ true =
      elim (Bool-cases (ltb idx (length pages))) [ inl e ↦ rw e refl | inr e ↦ rw e refl ] in
    rw first (all_held_lem pages order)

kernel_checksum-blocks :
    (stale : ℕ → ℕ → ℕ → ℕ) (out_checksum : ℕ) (pages blocks : List ℕ)
    → out_checksum < u64_mod
    → kernel_checksum stale (length pages) pages blocks out_checksum
      ≡ ok (
          (out_checksum + sum (map (λ b. block_sum (stale b) (length pages) pages b) blocks))
          % u64_mod)
unfolding kernel_checksum sum
kernel_checksum-blocks stale out_checksum pages [] h = ap ok (omega arith)
kernel_checksum-blocks stale out_checksum pages (b ∷ blocks) h =
    let val = λ (x : ℕ). block_sum (stale x) (length pages) pages x in
    rw (all_held_lem pages (block_threads b block_size)) (
      kernel_checksum-blocks stale (u64_add out_checksum (val b)) pages blocks
        (u64_add-lt out_checksum (val b))
      ∙ ap ok (u64_add_regroup out_checksum (val b) (sum (map val blocks))))

-- For an array of at most 2 ^ 32 elements, `kernel_checksum` does not fault, and adds the sum of the elements to the
-- result, a number below 2 ^ 64, modulo 2 ^ 64: in whatever order the blocks of the grid end, and whatever a lane
-- reads of the lanes that the second reduction names and that do not execute it.
pub kernel_checksum_lem :
    (stale : ℕ → ℕ → ℕ → ℕ) (out_checksum : ℕ) (pages blocks : List ℕ)
    → out_checksum < u64_mod
    → length pages ≤ u32_mod
    → Perm blocks (grid_blocks (grid_size (length pages)))
    → kernel_checksum stale (length pages) pages blocks out_checksum
      ≡ ok ((out_checksum + sum pages) % u64_mod)
kernel_checksum_lem stale out_checksum pages blocks h fits order =
    let g = grid_size (length pages) in
    let (covers, within) = grid_size-covers (length pages) fits in
    let val = λ (b : ℕ). block_sum (stale b) (length pages) pages b in
    let row = λ (b : ℕ). total block_size (λ i. share pages (b * block_size + i)) in
    let reordered = sum-Perm (Perm.map val order) ∙ sum-grid_blocks g val in
    let rows =
      total_congr g val (λ b. row b % u64_mod)
        (λ b p. block_sum_lem pages b (omega arith) (stale b)) in
    let all = total_rows block_size g (share pages) ∙ total-share pages (g * block_size) covers in
    kernel_checksum-blocks stale out_checksum pages blocks h
    ∙ ap ok (omega (arith, reordered, rows, total_mod g row, all))
