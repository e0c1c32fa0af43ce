-- ===== src/Video/Smooths.antt =====
-- What a mean of five bytes in the inside of a frame does to the frame.
use native.Mathlib.Nat.{mul-le-mul_right, mul-add-mod_self_right, mod-eq_of_lt}
use gpu_vmm.Prelude.{
  ℕ, ◌+◌, ◌-◌, ◌*◌, ◌/◌, ◌%◌, ◌≤◌, ◌<◌, ◌≡◌, ◌⊎◌, inl, inr, refl, sym, ◌∙◌, some, List, length, set,
  get_elem?, arith, ◌==◌, Bool-cases, ==→eq, ==→ne, length-set, get_elem?-set_self,
  get_elem?-set_ne,
}

-- Every byte is from `low` to `high`.
abbrev pub Within : ℕ → ℕ → List ℕ → Type 0
Within low high bytes = (j v : ℕ) → get_elem? bytes j ≡ some v → (low ≤ v) × (v ≤ high)

-- A channel of a pixel that is not on the border of the frame.
pub record Inner (width height j : ℕ) : Type 0 where
  pub y : ℕ
  pub x : ℕ
  pub c : ℕ
  pub place : j ≡ (y * width + x) * 3 + c
  pub channel : c < 3
  pub left : 1 ≤ x
  pub right : x + 1 < width
  pub top : 1 ≤ y
  pub bottom : y + 1 < height

-- Only bytes of inner pixels change, and none leaves the range that all were in.
pub record Smooths (width height : ℕ) (bytes after : List ℕ) : Type 0 where
  pub size : length after ≡ length bytes
  pub outside : (j : ℕ) → (get_elem? after j ≡ get_elem? bytes j) ⊎ Inner width height j
  pub range : (low high : ℕ) → high < 256 → Within low high bytes → Within low high after

pub Smooths-refl : {width height : ℕ} {bytes : List ℕ} → Smooths width height bytes bytes
Smooths-refl = record { size = refl; outside = λ j. inl refl; range = λ low high h w. w }

pub Smooths-trans :
    {width height : ℕ} {a b d : List ℕ}
    → Smooths width height a b
    → Smooths width height b d
    → Smooths width height a d
Smooths-trans p q = record {
  size = q.size ∙ p.size;
  outside = λ j. elim (q.outside j) [
    | inr i ↦ inr i
    | inl e ↦ elim (p.outside j) [ inr i ↦ inr i | inl d ↦ inl (e ∙ d) ]
  ];
  range = λ low high h w. q.range low high h (p.range low high h w);
}

-- The mean of five bytes takes the place of one.
pub set-Smooths :
    (width height y x c : ℕ) (bytes : List ℕ) (a b d e f : ℕ) (ja jb jd je jf : ℕ)
    → Inner width height ((y * width + x) * 3 + c)
    → (y * width + x) * 3 + c < length bytes
    → get_elem? bytes ja ≡ some a
    → get_elem? bytes jb ≡ some b
    → get_elem? bytes jd ≡ some d
    → get_elem? bytes je ≡ some e
    → get_elem? bytes jf ≡ some f
    → Smooths width height bytes
        (set bytes ((y * width + x) * 3 + c) ((a + b + d + e + f) % 65536 / 5 % 256))
set-Smooths width height y x c bytes a b d e f ja jb jd je jf inner inside at_a at_b at_d at_e
      at_f =
    let i = (y * width + x) * 3 + c in
    let v = (a + b + d + e + f) % 65536 / 5 % 256 in
    record {
      size = length-set bytes i v;
      outside = λ j. elim (Bool-cases (i == j)) [
        | inl here ↦ inr (rw (sym (==→eq i j here)) inner)
        | inr there ↦ inl (get_elem?-set_ne bytes i j v (==→ne i j there))
      ];
      range = λ low high h w j u got.
          let ra = w ja a at_a in
          let rb = w jb b at_b in
          let rd = w jd d at_d in
          let re = w je e at_e in
          let rf = w jf f at_f in
          elim (Bool-cases (i == j)) [
            | inl here ↦
                let k = get_elem?-set_self bytes i v inside in
                let same : u ≡ v = ground (arith, got, k, ==→eq i j here) in
                rw same (omega (arith, ra, rb, rd, re, rf, h))
            | inr there ↦ w j u (sym (get_elem?-set_ne bytes i j v (==→ne i j there)) ∙ got)
          ];
    }

-- Not in the inside of the frame: a byte of a pixel in the first or last row or column, or a byte after the frame.
abbrev pub OnBorder : ℕ → ℕ → ℕ → Type 0
OnBorder width height j =
    (j / 3 < width)
    ⊎ (width * height ≤ j / 3 + width)
    ⊎ (j / 3 % width ≡ 0)
    ⊎ (j / 3 % width ≡ width - 1)

pub OnBorder-apart : (width height j : ℕ) → OnBorder width height j → Inner width height j → ⊥
OnBorder-apart width height j b i =
    let pixel : j / 3 ≡ i.y * width + i.x = omega (arith, i.place, i.channel) in
    let column : j / 3 % width ≡ i.x =
      rw pixel (mul-add-mod_self_right i.y width i.x ∙ mod-eq_of_lt (omega (arith, i.right))) in
    let above = mul-le-mul_right width (i.top) in
    let below = mul-le-mul_right width (let e : i.y + 2 ≤ height = omega (arith, i.bottom) in e) in
    elim b [
      | inl first ↦ omega (arith, first, pixel, above, i.left)
      | inr (inl last) ↦ omega (arith, last, pixel, below, i.right)
      | inr (inr (inl left)) ↦ omega (arith, left, column, i.left)
      | inr (inr (inr right)) ↦ omega (arith, right, column, i.right)
    ]
