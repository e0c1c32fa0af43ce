-- ===== src/Video/Convert.antt =====
-- The conversion to gray.
use mathlib.Core.List.{append_assoc}
use gpu_vmm.Prelude.{
  ℕ, zero, suc, ◌+◌, ◌*◌, ◌/◌, ◌%◌, ◌≤◌, ◌<◌, ◌≡◌, refl, ◌∙◌, ap, true, some, List, [], ◌∷◌, ◌++◌,
  length, set, get_elem?, arith, ltb, ok, Returns, length-append, get_elem?-append, set-append,
}
use gpu_vmm.Common.Words.{u32_mod}
use gpu_vmm.Video.{Frame, frame_size, read, write, convert_loop, color_space_convert}

-- The first pixels become gray, the bytes after them stay.
pub gray_pixels : ℕ → List ℕ → List ℕ
gray_pixels zero bytes = bytes
gray_pixels (suc n) [] = []
gray_pixels (suc n) (r ∷ []) = r ∷ []
gray_pixels (suc n) (r ∷ g ∷ []) = r ∷ g ∷ []
gray_pixels (suc n) (r ∷ g ∷ b ∷ bytes) =
    let y = (r + g + b) / 3 % 256 in y ∷ y ∷ y ∷ gray_pixels n bytes

pub length-gray_pixels : (n : ℕ) (bytes : List ℕ) → length (gray_pixels n bytes) ≡ length bytes
unfolding gray_pixels
length-gray_pixels zero bytes = refl
length-gray_pixels (suc n) [] = refl
length-gray_pixels (suc n) (r ∷ []) = refl
length-gray_pixels (suc n) (r ∷ g ∷ []) = refl
length-gray_pixels (suc n) (r ∷ g ∷ b ∷ bytes) = omega (arith, length-gray_pixels n bytes)

pub get_elem?-gray_pixels :
    (n : ℕ) (bytes : List ℕ) (j : ℕ)
    → n * 3 ≤ j
    → get_elem? (gray_pixels n bytes) j ≡ get_elem? bytes j
unfolding gray_pixels
get_elem?-gray_pixels zero bytes j h = refl
get_elem?-gray_pixels (suc n) [] j h = refl
get_elem?-gray_pixels (suc n) (r ∷ []) j h = refl
get_elem?-gray_pixels (suc n) (r ∷ g ∷ []) j h = refl
get_elem?-gray_pixels (suc n) (r ∷ g ∷ b ∷ bytes) zero h = absurd (omega arith)
get_elem?-gray_pixels (suc n) (r ∷ g ∷ b ∷ bytes) (suc zero) h = absurd (omega arith)
get_elem?-gray_pixels (suc n) (r ∷ g ∷ b ∷ bytes) (suc (suc zero)) h = absurd (omega arith)
get_elem?-gray_pixels (suc n) (r ∷ g ∷ b ∷ bytes) (suc (suc (suc j))) h =
    get_elem?-gray_pixels n bytes j (omega arith)

gray_pixels-gray_pixels :
    (n : ℕ) (bytes : List ℕ) → gray_pixels n (gray_pixels n bytes) ≡ gray_pixels n bytes
unfolding gray_pixels
gray_pixels-gray_pixels zero bytes = refl
gray_pixels-gray_pixels (suc n) [] = refl
gray_pixels-gray_pixels (suc n) (r ∷ []) = refl
gray_pixels-gray_pixels (suc n) (r ∷ g ∷ []) = refl
gray_pixels-gray_pixels (suc n) (r ∷ g ∷ b ∷ bytes) =
    let y = (r + g + b) / 3 % 256 in
    let same : (y + y + y) / 3 % 256 ≡ y = omega arith in
    rw (same, gray_pixels-gray_pixels n bytes) refl

read-append :
    (before bytes : List ℕ) (k v : ℕ)
    → get_elem? bytes k ≡ some v
    → read (before ++ bytes) (length before + k) ≡ ok v
unfolding read
read-append before bytes k v h = ground (arith, get_elem?-append before bytes k, h)

write-append :
    (before bytes : List ℕ) (k v : ℕ)
    → k < length bytes
    → write (before ++ bytes) (length before + k) v ≡ ok (before ++ set bytes k v)
unfolding write
write-append before bytes k v h =
    let inside : ltb (length before + k) (length (before ++ bytes)) ≡ true =
      ground (arith, length-append before bytes) in
    rw inside (ap ok (set-append before bytes k v))

convert_loop_lem :
    (n : ℕ) (before bytes : List ℕ)
    → n * 3 ≤ length bytes
    → convert_loop n (length before) (before ++ bytes) ≡ ok (before ++ gray_pixels n bytes)
unfolding convert_loop gray_pixels
convert_loop_lem zero before bytes h = refl
convert_loop_lem (suc n) before [] h = absurd (omega arith)
convert_loop_lem (suc n) before (r ∷ []) h = absurd (omega arith)
convert_loop_lem (suc n) before (r ∷ g ∷ []) h = absurd (omega arith)
convert_loop_lem (suc n) before (r ∷ g ∷ b ∷ bytes) h =
    let y = (r + g + b) / 3 % 256 in
    let all = r ∷ g ∷ b ∷ bytes in
    let pixel = y ∷ y ∷ y ∷ [] in
    let here : length before + 0 ≡ length before = omega arith in
    let read_r = rw here at (read-append before all 0 r refl) in
    let write_r = rw here at (write-append before (r ∷ y ∷ y ∷ bytes) 0 y (omega arith)) in
    let rest = convert_loop_lem n (before ++ pixel) bytes (omega arith) in
    let behind : length (before ++ pixel) ≡ length before + 3 =
      omega (arith, length-append before pixel) in
    let joined = append_assoc before pixel bytes in
    let joined' = append_assoc before pixel (gray_pixels n bytes) in
    rw (read_r, read-append before all 1 g refl, read-append before all 2 b refl)
      (rw (write-append before all 2 y (omega arith)) (
        rw (write-append before (r ∷ g ∷ y ∷ bytes) 1 y (omega arith))
          (rw write_r (rw (behind, joined, joined') at rest))))

-- The frame has its size in 32 bits, and a buffer that holds it.
pub record Fits (frame : Frame) : Type 0 where
  pub small : frame.width * frame.height * 3 < u32_mod
  pub held : frame.width * frame.height * 3 ≤ length frame.bytes

pixels_of :
    (frame : Frame)
    → Fits frame
    → (frame_size frame.width frame.height + 2) / 3 ≡ frame.width * frame.height
unfolding frame_size
pixels_of frame fits = omega (arith, fits.small)

pub convert-pixels :
    (frame : Frame)
    → Fits frame
    → color_space_convert frame
      ≡ ok (record frame { bytes = gray_pixels (frame.width * frame.height) frame.bytes })
unfolding color_space_convert
convert-pixels frame fits =
    let whole = convert_loop_lem (frame.width * frame.height) [] frame.bytes fits.held in
    rw (pixels_of frame fits, whole) refl

pub convert-Fits :
    (frame : Frame)
    → Fits frame
    → Fits (record frame { bytes = gray_pixels (frame.width * frame.height) frame.bytes })
convert-Fits frame fits = record {
  small = fits.small;
  held = omega (arith, fits.held, length-gray_pixels (frame.width * frame.height) frame.bytes);
}

-- For a frame whose size is below 2 ^ 32 and whose buffer holds it, `color_space_convert` does not fault: it turns
-- the bytes of each pixel into their mean, and leaves what follows the frame in the buffer. A frame that it has
-- converted is the same after a second conversion.
pub color_space_convert_lem :
    (frame : Frame)
    → Fits frame
    → Returns (color_space_convert frame) λ gray.
      (gray ≡ record frame { bytes = gray_pixels (frame.width * frame.height) frame.bytes })
      × (color_space_convert gray ≡ ok gray)
color_space_convert_lem frame fits =
    let n = frame.width * frame.height in
    let gray = record frame { bytes = gray_pixels n frame.bytes } in
    (
      gray,
      convert-pixels frame fits,
      (
        refl,
        convert-pixels gray (convert-Fits frame fits)
            ∙ rw (gray_pixels-gray_pixels n frame.bytes) refl,
      ),
    )
