-- ===== src/Device/Reduce.antt =====
-- `kernel_checksum` of src/device/device_helpers.cu: the reduction of a warp, of a block, and the sum over the blocks.
-- A shared array or the registers of a warp are functions of the lane. `warpSize` is 32.
use gpu_vmm.Prelude.{
  ℕ, zero, suc, ◌+◌, ◌*◌, ◌/◌, none, some, List, [], ◌∷◌, if◌then◌else◌, ltb, ◌==◌, get_elem?, Bool,
  true, ◌&&◌, length, Run, ok, fault,
}
use gpu_vmm.Common.Words.{u64_add}
use gpu_vmm.Device.{thread_index, block_size, block_threads}

-- `uint64_t val = 0; if (idx < num_elements) val = pages[idx];` in an array that has the element; `kernel_checksum`
-- tests that it has.
unfoldable pub element : ℕ → List ℕ → ℕ → ℕ
element num_elements pages idx =
    if ltb idx num_elements then elim (get_elem? pages idx) [ none ↦ 0 | some val ↦ val ] else 0

-- `val += __shfl_down_sync(0xffffffff, val, offset)` in a warp whose lanes below `active` execute it. A lane past
-- the end of the warp reads its own value; what a lane reads of one that does not execute is `stale`.
unfoldable pub shuffle_add : ℕ → (ℕ → ℕ → ℕ) → ℕ → (ℕ → ℕ) → ℕ → ℕ
shuffle_add active stale offset val lane = u64_add (val lane) (
    if ltb (lane + offset) active
    then val (lane + offset)
    else (if ltb (lane + offset) 32 then stale offset (lane + offset) else val lane))

-- `for (int offset = warpSize / 2; offset > 0; offset /= 2)`, all lanes active: the rounds left, and `offset`.
unfoldable pub down_loop : ℕ → ℕ → (ℕ → ℕ) → ℕ → ℕ
unfolding shuffle_add
down_loop zero offset val = val
down_loop (suc left) offset val =
    let rest = down_loop left (offset / 2) (shuffle_add 32 (λ o lane. 0) offset val) in
    if offset == 0 then val else rest

-- `for (int offset = 1; offset < blockDim.x / warpSize; offset *= 2)` in the first eight lanes.
unfoldable pub up_loop : (ℕ → ℕ → ℕ) → ℕ → ℕ → (ℕ → ℕ) → ℕ → ℕ
unfolding shuffle_add
up_loop stale zero offset val = val
up_loop stale (suc left) offset val =
    let rest = up_loop stale left (offset * 2) (shuffle_add 8 stale offset val) in
    if ltb offset 8 then rest else val

-- `sdata[warp]`
unfoldable pub warp_sum : ℕ → List ℕ → ℕ → ℕ → ℕ
unfolding element down_loop
warp_sum num_elements pages block warp =
    down_loop 6 16 (λ lane. element num_elements pages (thread_index block (warp * 32 + lane))) 0

-- What thread 0 of a block adds to the result.
unfoldable pub block_sum : (ℕ → ℕ → ℕ) → ℕ → List ℕ → ℕ → ℕ
unfolding warp_sum up_loop
block_sum stale num_elements pages block =
    up_loop stale 4 1 (λ lane. warp_sum num_elements pages block lane) 0

-- Whether the elements that the threads with these indices read are in the array.
unfoldable pub all_held : ℕ → List ℕ → List ℕ → Bool
all_held num_elements pages [] = true
all_held num_elements pages (idx ∷ order) =
    (if ltb idx num_elements then ltb idx (length pages) else true)
    && all_held num_elements pages order

-- The launch, its blocks in the order given: each ends in `atomicAdd(out_checksum, val)`. A read past the array is a
-- fault.
unfoldable pub kernel_checksum : (ℕ → ℕ → ℕ → ℕ) → ℕ → List ℕ → List ℕ → ℕ → Run ℕ
unfolding block_sum all_held block_threads
kernel_checksum stale num_elements pages [] out_checksum = ok out_checksum
kernel_checksum stale num_elements pages (block ∷ blocks) out_checksum =
    let rest =
      kernel_checksum stale num_elements pages blocks
        (u64_add out_checksum (block_sum (stale block) num_elements pages block)) in
    if all_held num_elements pages (block_threads block block_size) then rest else fault
