-- ===== src/Video/Filter.antt =====
-- The filter: what it reads and writes.
use native.Mathlib.Nat.{mul-le-mul_right}
use gpu_vmm.Prelude.{
  ℕ, zero, suc, ◌+◌, ◌-◌, ◌*◌, ◌/◌, ◌%◌, ◌≤◌, ◌<◌, ◌≡◌, inl, inr, refl, ◌∙◌, ap, true, some, List,
  length, set, get_elem?, arith, ltb, ok, Returns, get_elem?-in_range,
}
use gpu_vmm.Common.Words.{u32_mod, u64_mod, u64_add, u64_sub}
use gpu_vmm.Video.Convert.{Fits}
use gpu_vmm.Video.{Frame, read, write, pixel_index, blur, row_loop, filter_loop, apply_filter}
use gpu_vmm.Video.Smooths.{
  Within, Smooths, Smooths-refl, Smooths-trans, set-Smooths, OnBorder, OnBorder-apart,
}

pub read-in_range :
    (bytes : List ℕ) (i : ℕ)
    → i < length bytes
    → (v : ℕ) × (get_elem? bytes i ≡ some v) × (read bytes i ≡ ok v)
unfolding read
read-in_range bytes i h = let (v, e) = get_elem?-in_range bytes i h in (v, e, ground (arith, e))

pub write-set : (bytes : List ℕ) (i v : ℕ) → i < length bytes → write bytes i v ≡ ok (set bytes i v)
unfolding write
write-set bytes i v h = let t : ltb i (length bytes) ≡ true = ground arith in rw t refl

-- The width and the height of a frame in a buffer, with its size below 2 ^ 32.
module _ (width height : ℕ) (small : width * height * 3 < u32_mod) where
  index_lem :
      (y x c : ℕ)
      → y < height
      → x < width
      → c < 3
      → (u64_add (pixel_index width y x) c ≡ (y * width + x) * 3 + c)
        × ((y * width + x) * 3 + c < width * height * 3)
  unfolding pixel_index
  index_lem y x c in_height in_width channel =
      let rows = mul-le-mul_right width (let e : suc y ≤ height = omega arith in e) in
      let row : y * width + width ≤ height * width = omega (arith, rows) in
      (omega (arith, row), omega (arith, row))

  sample :
      (y x c : ℕ) (bytes : List ℕ)
      → y < height
      → x < width
      → c < 3
      → width * height * 3 ≤ length bytes
      → (v : ℕ) × (get_elem? bytes ((y * width + x) * 3 + c) ≡ some v)
        × (read bytes (u64_add (pixel_index width y x) c) ≡ ok v)
  sample y x c bytes in_height in_width channel held =
      let (place, inside) = index_lem y x c in_height in_width channel in
      let (v, here, given) =
        read-in_range bytes ((y * width + x) * 3 + c) (omega (arith, inside, held)) in
      (v, here, ap (read bytes) place ∙ given)

  neighbours :
      (y x : ℕ)
      → y < height
      → x < width
      → 1 ≤ y
      → 1 ≤ x
      → (u64_sub x 1 ≡ x - 1)
        × (u64_add x 1 ≡ x + 1)
        × (u64_sub y 1 ≡ y - 1)
        × (u64_add y 1 ≡ y + 1)
  neighbours y x in_height in_width top left =
      let wide = mul-le-mul_right width (let e : 1 ≤ height = omega arith in e) in
      let high = mul-le-mul_right height (let e : 1 ≤ width = omega arith in e) in
      let w : width ≤ height * width = omega (arith, wide) in
      let h : height ≤ width * height = omega (arith, high) in
      (omega (arith, w), omega (arith, w), omega (arith, h), omega (arith, h))

  blur_run :
      (y x c i p l r u d : ℕ) (bytes : List ℕ)
      → (u64_sub x 1 ≡ x - 1)
        × (u64_add x 1 ≡ x + 1)
        × (u64_sub y 1 ≡ y - 1)
        × (u64_add y 1 ≡ y + 1)
      → u64_add (pixel_index width y x) c ≡ i
      → i < length bytes
      → read bytes (u64_add (pixel_index width y x) c) ≡ ok p
      → read bytes (u64_add (pixel_index width y (x - 1)) c) ≡ ok l
      → read bytes (u64_add (pixel_index width y (x + 1)) c) ≡ ok r
      → read bytes (u64_add (pixel_index width (y - 1) x) c) ≡ ok u
      → read bytes (u64_add (pixel_index width (y + 1) x) c) ≡ ok d
      → blur width y x c bytes ≡ ok (set bytes i ((p + l + r + u + d) % 65536 / 5 % 256))
  unfolding blur
  blur_run y x c i p l r u d bytes (x_left, x_right, y_up, y_down) place inside at_p at_l at_r at_u
        at_d =
      rw (x_left, x_right, y_up, y_down)
        (rw at_p (
          rw at_l (
            rw at_r (
              rw at_u (
                rw at_d
                  (rw place (write-set bytes i ((p + l + r + u + d) % 65536 / 5 % 256) inside)))))))

  blur-Smooths :
      (y x c : ℕ) (bytes : List ℕ)
      → 1 ≤ y
      → y + 1 < height
      → 1 ≤ x
      → x + 1 < width
      → c < 3
      → width * height * 3 ≤ length bytes
      → Returns (blur width y x c bytes) (Smooths width height bytes)
  blur-Smooths y x c bytes top bottom left right channel held =
      let i = (y * width + x) * 3 + c in
      let (place, inside) = index_lem y x c (omega arith) (omega arith) channel in
      let (p, p_in, p_read) = sample y x c bytes (omega arith) (omega arith) channel held in
      let (l, l_in, l_read) = sample y (x - 1) c bytes (omega arith) (omega arith) channel held in
      let (r, r_in, r_read) = sample y (x + 1) c bytes (omega arith) (omega arith) channel held in
      let (u, u_in, u_read) = sample (y - 1) x c bytes (omega arith) (omega arith) channel held in
      let (d, d_in, d_read) = sample (y + 1) x c bytes (omega arith) (omega arith) channel held in
      let v = (p + l + r + u + d) % 65536 / 5 % 256 in
      (
        set bytes i v,
        blur_run y x c i p l r u d bytes (neighbours y x (omega arith) (omega arith) top left) place
            (omega (arith, inside, held)) p_read l_read r_read u_read d_read,
        set-Smooths width height y x c bytes p l r u d _ _ _ _ _
            (record {
              y = y;
              x = x;
              c = c;
              place = refl;
              channel = channel;
              left = left;
              right = right;
              top = top;
              bottom = bottom;
            })
            (omega (arith, inside)) p_in l_in r_in u_in d_in,
      )

  row_loop-Smooths :
      (y left x : ℕ) (bytes : List ℕ)
      → 1 ≤ y
      → y + 1 < height
      → 1 ≤ x
      → (1 ≤ left → x + left + 1 ≤ width)
      → width * height * 3 ≤ length bytes
      → Returns (row_loop width y left x bytes) (Smooths width height bytes)
  unfolding row_loop
  row_loop-Smooths y zero x bytes top bottom first fit held = (bytes, refl, Smooths-refl)
  row_loop-Smooths y (suc left) x bytes top bottom first fit held =
      let room : x + suc left + 1 ≤ width = fit (omega arith) in
      let (red, at_red, r) =
        blur-Smooths y x 0 bytes top bottom first (omega arith) (omega arith) held in
      let (green, at_green, g) =
        blur-Smooths y x 1 red top bottom first (omega arith) (omega arith)
          (omega (arith, r.size)) in
      let (blue, at_blue, b) =
        blur-Smooths y x 2 green top bottom first (omega arith) (omega arith)
          (omega (arith, r.size, g.size)) in
      let (after, at_after, s) =
        row_loop-Smooths y left (x + 1) blue top bottom (omega arith) (λ h. omega arith)
          (omega (arith, r.size, g.size, b.size)) in
      (
        after,
        rw at_red (rw at_green (rw at_blue at_after)),
        Smooths-trans r (Smooths-trans g (Smooths-trans b s)),
      )

  filter_loop-Smooths :
      (left y : ℕ) (bytes : List ℕ)
      → 1 ≤ y
      → (1 ≤ left → y + left + 1 ≤ height)
      → 1 ≤ width
      → width < u64_mod
      → width * height * 3 ≤ length bytes
      → Returns (filter_loop width left y bytes) (Smooths width height bytes)
  unfolding filter_loop
  filter_loop-Smooths zero y bytes top fit wide in_64 held = (bytes, refl, Smooths-refl)
  filter_loop-Smooths (suc left) y bytes top fit wide in_64 held =
      let room : y + suc left + 1 ≤ height = fit (omega arith) in
      let (row, at_row, r) =
        row_loop-Smooths y (u64_sub width 1 - 1) 1 bytes top (omega arith) (omega arith)
          (λ h. omega arith) held in
      let (after, at_after, s) =
        filter_loop-Smooths left (y + 1) row (omega arith) (λ h. omega arith) wide in_64
          (omega (arith, r.size)) in
      (after, rw at_row at_after, Smooths-trans r s)

-- For a frame that has pixels, whose size is below 2 ^ 32 and whose buffer holds it, `apply_filter` does not fault. It
-- keeps the sizes and every byte of the first and the last row and column, and every byte after the frame; and where
-- all bytes of the buffer were between two bounds below 256, they still are, so a frame of one gray stays as it is.
pub apply_filter_lem :
    (frame : Frame)
    → Fits frame
    → 1 ≤ frame.width
    → 1 ≤ frame.height
    → Returns (apply_filter frame) λ after.
      (after.width ≡ frame.width)
      × (after.height ≡ frame.height)
      × (length after.bytes ≡ length frame.bytes)
      × ((j : ℕ)
          → OnBorder frame.width frame.height j
          → get_elem? after.bytes j ≡ get_elem? frame.bytes j)
      × ((low high : ℕ) → high < 256 → Within low high frame.bytes → Within low high after.bytes)
unfolding apply_filter
apply_filter_lem frame fits wide high =
    let area = mul-le-mul_right frame.width high in
    let tall = mul-le-mul_right frame.height wide in
    let in_64 : frame.width < u64_mod = omega (arith, area, fits.small) in
    let (after, at_after, s) =
      filter_loop-Smooths frame.width frame.height fits.small (u64_sub frame.height 1 - 1) 1
        frame.bytes (omega arith) (λ h. omega (arith, tall, fits.small)) wide in_64 fits.held in
    (
      record frame { bytes = after },
      rw at_after refl,
      (
        refl,
        refl,
        s.size,
        λ j b. elim (s.outside j) [
          | inl e ↦ e
          | inr i ↦ elim (OnBorder-apart frame.width frame.height j b i) [ ]
        ],
        s.range,
      ),
    )
