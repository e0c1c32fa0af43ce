-- ===== src/Video/Process.antt =====
-- A frame through the pipeline.
use Prim.Native.Nat.{bit_xor}
use native.Mathlib.Nat.{mul-le-mul_right}
use gpu_vmm.Prelude.{
  ℕ, zero, suc, ◌+◌, ◌*◌, ◌≤◌, ◌<◌, ◌≡◌, inl, inr, refl, ◌∙◌, List, length, set, get_elem?, ◌==◌,
  arith, Bool-cases, ok, Returns, length-set, get_elem?-set_ne,
}
use gpu_vmm.Video.{bit_xor, Frame, frame_size, decode_loop, decode_frame, process_frame}
use gpu_vmm.Video.Convert.{
  Fits, gray_pixels, convert-pixels, convert-Fits, length-gray_pixels, get_elem?-gray_pixels,
}
use gpu_vmm.Video.Filter.{read-in_range, write-set, apply_filter_lem}

decode_loop_total :
    (bytes : List ℕ) (left i checksum : ℕ)
    → i + left ≤ length bytes
    → (sum : ℕ) × (decode_loop bytes left i checksum ≡ ok sum)
unfolding decode_loop
decode_loop_total bytes zero i checksum h = (checksum, refl)
decode_loop_total bytes (suc left) i checksum h =
    let (v, here, given) = read-in_range bytes i (omega arith) in
    let (sum, rest) = decode_loop_total bytes left (i + 1) (bit_xor checksum v) (omega arith) in
    (sum, rw given rest)

-- The sizes of the frame and what lies behind it are kept.
pub record WithinFrame (frame after : Frame) : Type 0 where
  pub width : after.width ≡ frame.width
  pub height : after.height ≡ frame.height
  pub size : length after.bytes ≡ length frame.bytes
  pub behind :
      (j : ℕ)
      → frame.width * frame.height * 3 ≤ j
      → get_elem? after.bytes j ≡ get_elem? frame.bytes j

decoded_with :
    (frame : Frame) (sum : ℕ)
    → decode_loop frame.bytes (frame_size frame.width frame.height) 0 0 ≡ ok sum
    → 0 < length frame.bytes
    → 1 ≤ frame.width * frame.height
    → Returns (decode_frame frame) (WithinFrame frame)
unfolding decode_frame
decoded_with frame sum summed held some_pixels = elim (Bool-cases (sum == 255)) [
  | inl found ↦
      let written = write-set frame.bytes 0 sum held in
      (
        record frame { bytes = set frame.bytes 0 sum },
        rw summed (rw found (rw written refl)),
        (record {
          width = refl;
          height = refl;
          size = length-set frame.bytes 0 sum;
          behind = λ j h. get_elem?-set_ne frame.bytes 0 j sum (omega arith);
        }),
      )
  | inr other ↦ (
    frame,
    rw summed (rw other refl),
    record { width = refl; height = refl; size = refl; behind = λ j h. refl },
  )
]

decode_frame-WithinFrame :
    (frame : Frame)
    → Fits frame
    → 1 ≤ frame.width * frame.height
    → Returns (decode_frame frame) (WithinFrame frame)
unfolding frame_size
decode_frame-WithinFrame frame fits some_pixels =
    let (sum, summed) =
      decode_loop_total frame.bytes (frame_size frame.width frame.height) 0 0
        (omega (arith, fits.held, fits.small)) in
    decoded_with frame sum summed (omega (arith, fits.held)) some_pixels

-- A frame that has pixels, whose size is below 2 ^ 32 and whose buffer holds it, goes through the pipeline, decoded,
-- converted and filtered, without a fault; its sizes and every byte after the frame, where the next frame begins,
-- are what they were.
pub process_frame-WithinFrame :
    (frame : Frame)
    → Fits frame
    → 1 ≤ frame.width
    → 1 ≤ frame.height
    → Returns (process_frame frame) (WithinFrame frame)
unfolding process_frame
process_frame-WithinFrame frame fits wide high =
    let area = mul-le-mul_right frame.width high in
    let (decoded, at_decoded, d) = decode_frame-WithinFrame frame fits (omega (arith, area)) in
    let same_area : decoded.width * decoded.height ≡ frame.width * frame.height =
      rw (d.width, d.height) refl in
    let fits_decoded : Fits decoded = record {
      small = omega (arith, same_area, fits.small);
      held = omega (arith, same_area, d.size, fits.held);
    } in
    let n = decoded.width * decoded.height in
    let gray = record decoded { bytes = gray_pixels n decoded.bytes } in
    let (after, at_after, (same_width, same_height, size, border, range)) =
      apply_filter_lem gray (convert-Fits decoded fits_decoded) (omega (arith, d.width, wide))
        (omega (arith, d.height, high)) in
    (
      after,
      rw at_decoded (rw (convert-pixels decoded fits_decoded) at_after),
      (record {
        width = same_width ∙ d.width;
        height = same_height ∙ d.height;
        size = size ∙ length-gray_pixels n decoded.bytes ∙ d.size;
        behind = λ j h.
            border j (inr (inl (omega (arith, same_area, h))))
            ∙ get_elem?-gray_pixels n decoded.bytes j (omega (arith, same_area, h))
            ∙ d.behind j h;
      }),
    )
