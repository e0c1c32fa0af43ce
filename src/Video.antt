-- ===== src/Video.antt =====
-- src/examples/video_pipeline_sim.cpp: what the pipeline does to one frame. `data` is the list of the bytes that it
-- points to, and an access past them is a fault.
pub mod Convert
pub mod Smooths
pub mod Filter
pub mod Process
pub mod Batches
use Prim.Native.Nat.{bit_xor}
use gpu_vmm.Prelude.{
  ℕ, zero, suc, ◌+◌, ◌-◌, ◌*◌, ◌/◌, ◌%◌, Option, none, some, List, length, set, get_elem?,
  if◌then◌else◌, ltb, ◌==◌, Run, ok, fault, ◌>>=◌,
}
use gpu_vmm.Common.Words.{u32_mod, u64_add, u64_sub, u64_mul}

pub record Frame : Type 0 where
  pub width : ℕ
  pub height : ℕ
  pub bytes : List ℕ

-- The product is of `uint32_t`.
unfoldable pub frame_size : ℕ → ℕ → ℕ
frame_size width height = width * height % u32_mod * 3 % u32_mod

unfoldable pub read : List ℕ → ℕ → Run ℕ
read bytes i = elim (get_elem? bytes i) [ none ↦ fault | some val ↦ ok val ]

unfoldable pub write : List ℕ → ℕ → ℕ → Run (List ℕ)
write bytes i val = if ltb i (length bytes) then ok (set bytes i val) else fault

-- `checksum ^= frame->data[i]`: the rounds left, and `i`.
unfoldable pub decode_loop : List ℕ → ℕ → ℕ → ℕ → Run ℕ
unfolding read
decode_loop bytes zero i checksum = ok checksum
decode_loop bytes (suc left) i checksum = do
  val ← read bytes i
  decode_loop bytes left (i + 1) (bit_xor checksum val)

unfoldable pub decode_frame : Frame → Run Frame
unfolding decode_loop frame_size write
decode_frame frame = do
  checksum ← decode_loop frame.bytes (frame_size frame.width frame.height) 0 0
  if checksum == 255
      then (do bytes ← write frame.bytes 0 checksum; ok (record frame { bytes = bytes }))
      else ok frame

-- The loop over the pixels: the rounds left, and `i`.
unfoldable pub convert_loop : ℕ → ℕ → List ℕ → Run (List ℕ)
unfolding read write
convert_loop zero i bytes = ok bytes
convert_loop (suc left) i bytes = do
  r ← read bytes i
  g ← read bytes (i + 1)
  b ← read bytes (i + 2)
  let y = (r + g + b) / 3 % 256
  bytes₁ ← write bytes (i + 2) y
  bytes₂ ← write bytes₁ (i + 1) y
  bytes₃ ← write bytes₂ i y
  convert_loop left (i + 3) bytes₃

-- `for (size_t i = 0; i < size; i += 3)` has as many rounds as there are multiples of 3 below `size`.
unfoldable pub color_space_convert : Frame → Run Frame
unfolding convert_loop frame_size
color_space_convert frame = do
  bytes ← convert_loop ((frame_size frame.width frame.height + 2) / 3) 0 frame.bytes
  ok (record frame { bytes = bytes })

-- `(y * width + x) * 3`
unfoldable pub pixel_index : ℕ → ℕ → ℕ → ℕ
pixel_index width y x = u64_mul (u64_add (u64_mul y width) x) 3

-- The channel `c` of the pixel at `x` and `y`.
unfoldable pub blur : ℕ → ℕ → ℕ → ℕ → List ℕ → Run (List ℕ)
unfolding read write pixel_index
blur width y x c bytes = do
  here ← read bytes (u64_add (pixel_index width y x) c)
  left ← read bytes (u64_add (pixel_index width y (u64_sub x 1)) c)
  right ← read bytes (u64_add (pixel_index width y (u64_add x 1)) c)
  up ← read bytes (u64_add (pixel_index width (u64_sub y 1) x) c)
  down ← read bytes (u64_add (pixel_index width (u64_add y 1) x) c)
  let sum = (here + left + right + up + down) % 65536
  write bytes (u64_add (pixel_index width y x) c) (sum / 5 % 256)

-- The loops over `x` and over `y`: the rounds left, and the counter.
unfoldable pub row_loop : ℕ → ℕ → ℕ → ℕ → List ℕ → Run (List ℕ)
unfolding blur
row_loop width y zero x bytes = ok bytes
row_loop width y (suc left) x bytes = do
  red ← blur width y x 0 bytes
  green ← blur width y x 1 red
  blue ← blur width y x 2 green
  row_loop width y left (x + 1) blue

unfoldable pub filter_loop : ℕ → ℕ → ℕ → List ℕ → Run (List ℕ)
unfolding row_loop
filter_loop width zero y bytes = ok bytes
filter_loop width (suc left) y bytes = do
  row ← row_loop width y (u64_sub width 1 - 1) 1 bytes
  filter_loop width left (y + 1) row

unfoldable pub apply_filter : Frame → Run Frame
unfolding filter_loop
apply_filter frame = do
  bytes ← filter_loop frame.width (u64_sub frame.height 1 - 1) 1 frame.bytes
  ok (record frame { bytes = bytes })

-- The calls that the pipeline makes for a frame.
unfoldable pub process_frame : Frame → Run Frame
unfolding decode_frame color_space_convert apply_filter
process_frame frame = do
  decoded ← decode_frame frame
  gray ← color_space_convert decoded
  apply_filter gray
