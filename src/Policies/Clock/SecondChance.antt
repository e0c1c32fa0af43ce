-- ===== src/Policies/Clock/SecondChance.antt =====
-- Whom `CLOCKPolicy::select_victim` evicts, and what it does to the clock face.
use native.Mathlib.Nat.{add-mod_right, add-zero, mod-lt, mod-eq_of_lt, mod-eq-sub-mod, mod-add-mod}
use gpu_vmm.Prelude.{
  ℕ, zero, suc, ◌+◌, ◌-◌, ◌%◌, ◌≤◌, ◌<◌, ◌≡◌, ◌≢◌, refl, sym, ◌∙◌, ap, Bool, true, false, Option,
  none, some, arith, length, get_elem?, if◌then◌else◌, ltb, ok, Bool-cases, ltb→lt, ltb→le, inl,
  inr, length-set, get_elem?-set_self, get_elem?-set_ne, get_elem?-lt, get_elem?-in_range,
}
use gpu_vmm.Policies.Clock.{ClockEntry, ClockPolicy, pass, take_victim, select_loop, select_victim}

-- The index `d` places after the hand.
abbrev pub ahead : ClockPolicy → ℕ → ℕ
ahead p d = (p.hand_pos + d) % length p.clock_hand_vec

abbrev pub bit_of : Option ClockEntry → Bool
bit_of none = false
bit_of (some e) = e.reference_bit

abbrev pub bit_at : ClockPolicy → ℕ → Bool
bit_at p i = bit_of (get_elem? p.clock_hand_vec i)

-- The entries `0` to `d - 1` places after the hand have their reference bits set.
abbrev pub AllSet : ClockPolicy → ℕ → Type 0
AllSet p d = (j : ℕ) → j < d → bit_at p (ahead p j) ≡ true

-- What `select_victim` leaves when it stops `d` places after the hand: the bits that it passed are clear.
pub passed : ℕ → ClockPolicy → ClockPolicy
passed zero p = p
passed (suc d) p = elim (get_elem? p.clock_hand_vec p.hand_pos) [
  | none ↦ p
  | some e ↦ passed d (pass p e)
]

pub wrap_lem :
    (h n d : ℕ) → h < n → d ≤ n → (h + d) % n ≡ (if ltb (h + d) n then h + d else h + d - n)
wrap_lem h n d k l = elim (Bool-cases (ltb (h + d) n)) [
  | inl less ↦ rw less (mod-eq_of_lt (ltb→lt (h + d) n less))
  | inr more ↦ rw more (mod-eq-sub-mod (ltb→le (h + d) n more) ∙ mod-eq_of_lt (omega arith))
]

module _ (p : ClockPolicy) (e : ClockEntry)
    (here : get_elem? p.clock_hand_vec p.hand_pos ≡ some e) where
  abbrev n : ℕ
  n = length p.clock_hand_vec

  hand-lt : p.hand_pos < n
  hand-lt = get_elem?-lt p.clock_hand_vec p.hand_pos e here

  pub length-pass : length (pass p e).clock_hand_vec ≡ n
  unfolding pass
  length-pass = length-set p.clock_hand_vec p.hand_pos (record e { reference_bit = false })

  -- The entry that is next after a round is `d + 1` places after the old hand.
  pub ahead-pass : (d : ℕ) → d < n → ahead (pass p e) d ≡ ahead p (suc d)
  unfolding pass
  ahead-pass d h = rw length-pass (
      mod-add-mod (p.hand_pos + 1) n d
      ∙ ap (λ i. i % n) (let e : p.hand_pos + 1 + d ≡ p.hand_pos + suc d = omega arith in e))

  get-pass_other :
      (i : ℕ)
      → i ≢ p.hand_pos
      → get_elem? (pass p e).clock_hand_vec i ≡ get_elem? p.clock_hand_vec i
  unfolding pass
  get-pass_other i h = get_elem?-set_ne p.clock_hand_vec p.hand_pos i _ (λ q. h (sym q))

  get-pass_self :
      get_elem? (pass p e).clock_hand_vec p.hand_pos ≡ some (record e { reference_bit = false })
  unfolding pass
  get-pass_self = get_elem?-set_self p.clock_hand_vec p.hand_pos _ hand-lt

  ahead-ne : (d : ℕ) → suc d < n → ahead p (suc d) ≢ p.hand_pos
  ahead-ne d h = ground (arith, wrap_lem p.hand_pos n (suc d) hand-lt (omega arith))

  -- A round does not change the bits of the entries that are still ahead.
  bit-pass :
      (d : ℕ) → suc d < n → bit_at (pass p e) (ahead (pass p e) d) ≡ bit_at p (ahead p (suc d))
  bit-pass d h =
      ap (bit_at (pass p e)) (ahead-pass d (omega arith))
      ∙ ap bit_of (get-pass_other (ahead p (suc d)) (ahead-ne d h))

  AllSet-pass : (d : ℕ) → d < n → AllSet p (suc d) → AllSet (pass p e) d
  AllSet-pass d h all j lt = bit-pass j (omega arith) ∙ all (suc j) (omega arith)

  pub select_loop-pass :
      (fuel : ℕ) → e.reference_bit ≡ true → select_loop (suc fuel) p ≡ select_loop fuel (pass p e)
  unfolding select_loop
  select_loop-pass fuel set_bit = rw (here, select_loop, set_bit)

  pub select_loop-stop :
      (fuel : ℕ) → e.reference_bit ≡ false → select_loop (suc fuel) p ≡ some (ok (take_victim p e))
  unfolding select_loop
  select_loop-stop fuel clear = rw (here, select_loop, clear)

pub ahead-zero : (p : ClockPolicy) → p.hand_pos < length p.clock_hand_vec → ahead p 0 ≡ p.hand_pos
ahead-zero p l = rw add-zero (mod-eq_of_lt l)

pub hand-pass :
    (p : ClockPolicy) (e : ClockEntry)
    → get_elem? p.clock_hand_vec p.hand_pos ≡ some e
    → (pass p e).hand_pos < length (pass p e).clock_hand_vec
hand-pass p e here =
    rw (length-pass p e here) (unfold pass in mod-lt _ (omega (arith, hand-lt p e here)))

pub passed-zero : (p : ClockPolicy) → passed 0 p ≡ p
unfolding passed
passed-zero p = refl

pub passed-suc :
    (d : ℕ) (p : ClockPolicy) (e : ClockEntry)
    → get_elem? p.clock_hand_vec p.hand_pos ≡ some e
    → passed (suc d) p ≡ passed d (pass p e)
unfolding passed
passed-suc d p e here = rw (here, passed)

pub select_victim-loop :
    (p : ClockPolicy) (r : ClockPolicy × ℕ)
    → p.hand_pos < length p.clock_hand_vec
    → select_loop (length p.clock_hand_vec + 1) p ≡ some (ok r)
    → select_victim p ≡ ok r
unfolding select_victim
select_victim-loop p r l e = ground arith

-- With the bits of the first `d` entries set and that of the next one clear, the loop stops there.
select_loop-ahead :
    (d fuel : ℕ) (p : ClockPolicy) (e : ClockEntry)
    → d < fuel
    → d < length p.clock_hand_vec
    → p.hand_pos < length p.clock_hand_vec
    → AllSet p d
    → get_elem? p.clock_hand_vec (ahead p d) ≡ some e
    → e.reference_bit ≡ false
    → select_loop fuel p ≡ some (ok (take_victim (passed d p) e))
unfolding passed
select_loop-ahead d zero p e h k l all at_d clear = absurd (omega arith)
select_loop-ahead zero (suc fuel) p e h k l all at_d clear =
    let here : get_elem? p.clock_hand_vec p.hand_pos ≡ some e =
      ap (get_elem? p.clock_hand_vec) (sym (ahead-zero p l)) ∙ at_d in
    select_loop-stop p e here fuel clear
select_loop-ahead (suc d) (suc fuel) p e h k l all at_d clear =
    let (x, here) = get_elem?-in_range p.clock_hand_vec p.hand_pos l in
    let set_bit : x.reference_bit ≡ true =
      sym (ap bit_of here) ∙ ap (bit_at p) (sym (ahead-zero p l)) ∙ all 0 (omega arith) in
    let size = length-pass p x here in
    let next : get_elem? (pass p x).clock_hand_vec (ahead (pass p x) d) ≡ some e =
      ap (get_elem? (pass p x).clock_hand_vec) (ahead-pass p x here d (omega arith))
      ∙ get-pass_other p x here (ahead p (suc d)) (ahead-ne p x here d k)
      ∙ at_d in
    rw (here, passed)
      (select_loop-pass p x here fuel set_bit
        ∙ select_loop-ahead d fuel (pass p x) e (omega arith) (omega (arith, size))
            (hand-pass p x here) (AllSet-pass p x here d (omega arith) all) next clear)

-- `select_victim` stops at the first entry whose bit is clear.
pub select_victim_stops :
    (p : ClockPolicy) (d : ℕ) (e : ClockEntry)
    → p.hand_pos < length p.clock_hand_vec
    → d < length p.clock_hand_vec
    → AllSet p d
    → get_elem? p.clock_hand_vec (ahead p d) ≡ some e
    → e.reference_bit ≡ false
    → select_victim p ≡ ok (take_victim (passed d p) e)
select_victim_stops p d e l h all at_d clear =
    select_victim-loop p (take_victim (passed d p) e) l
      (select_loop-ahead d (length p.clock_hand_vec + 1) p e (omega arith) h l all at_d clear)

-- On a face whose hand is in range, if all pages have their reference bits set, `select_victim` goes a full
-- round, clearing the bits, and returns the page at the hand as the victim.
pub select_victim-AllSet :
    (p : ClockPolicy) (e : ClockEntry)
    → p.hand_pos < length p.clock_hand_vec
    → AllSet p (length p.clock_hand_vec)
    → get_elem? p.clock_hand_vec p.hand_pos ≡ some e
    → select_victim p
      ≡ ok (take_victim (passed (length p.clock_hand_vec) p) (record e { reference_bit = false }))
select_victim-AllSet p e l all here =
    let size = length p.clock_hand_vec in
    let m = size - 1 in
    let e' = record e { reference_bit = false } in
    let whole : size ≡ suc m = omega arith in
    let used : e.reference_bit ≡ true =
      sym (ap bit_of here) ∙ ap (bit_at p) (sym (ahead-zero p l)) ∙ all 0 (omega arith) in
    let round : ahead p (suc m) ≡ p.hand_pos =
      rw (← whole) (add-mod_right p.hand_pos size ∙ mod-eq_of_lt l) in
    let last : get_elem? (pass p e).clock_hand_vec (ahead (pass p e) m) ≡ some e' =
      ap (get_elem? (pass p e).clock_hand_vec) (ahead-pass p e here m (omega arith) ∙ round)
      ∙ get-pass_self p e here in
    let q = passed m (pass p e) in
    let same : passed size p ≡ q = ap (λ (k : ℕ). passed k p) whole ∙ passed-suc m p e here in
    let stops : select_loop (suc size) p ≡ some (ok (take_victim q e')) =
      select_loop-pass p e here size used
      ∙ select_loop-ahead m size (pass p e) e' (omega arith) (omega (arith, length-pass p e here))
          (hand-pass p e here) (AllSet-pass p e here m (omega arith) (λ j lt. all j (omega arith)))
          last refl in
    let fuel : size + 1 ≡ suc size = omega arith in
    rw same (select_victim-loop p (take_victim q e') l (rw fuel stops))
