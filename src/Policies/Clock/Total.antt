-- ===== src/Policies/Clock/Total.antt =====
-- `CLOCKPolicy::select_victim` ends when the hand is in range, and what holds of every result.
use native.Mathlib.Nat.{mod-lt}
use gpu_vmm.Prelude.{
  ℕ, zero, suc, ◌+◌, ◌-◌, ◌%◌, ◌≤◌, ◌<◌, ◌≡◌, refl, ◌∙◌, true, false, some, List, [], ◌∷◌, arith,
  length, set, get_elem?, remove_at, if◌then◌else◌, ltb, ltb→lt, ltb→le, ◌⊎◌, ok, fault, Returns,
  Bool-cases, inl, inr, length-remove_at, get_elem?-lt, get_elem?-in_range, get_elem?-out,
}
use gpu_vmm.Policies.Clock.{
  ClockEntry, ClockPolicy, create, on_page_allocated, pass, take_victim, select_loop, select_victim,
}
use gpu_vmm.Policies.Clock.SecondChance.{
  wrap_lem, length-pass, hand-pass, select_loop-pass, select_loop-stop, select_victim-loop,
}

-- The number of entries whose reference bit is set.
bits : List ClockEntry → ℕ
bits [] = 0
bits (e ∷ es) = if e.reference_bit then suc (bits es) else bits es

bits-le-length : (es : List ClockEntry) → bits es ≤ length es
unfolding bits
bits-le-length [] = omega arith
bits-le-length (e ∷ es) = ground (arith, bits-le-length es)

bits-clear :
    (es : List ClockEntry) (i : ℕ) (e : ClockEntry)
    → get_elem? es i ≡ some e
    → e.reference_bit ≡ true
    → bits (set es i (record e { reference_bit = false })) + 1 ≡ bits es
unfolding bits
bits-clear [] i e h b = absurd (ground (arith, h))
bits-clear (x ∷ es) zero e h b = ground arith
bits-clear (x ∷ es) (suc i) e h b = ground (arith, bits-clear es i e h b)

get_elem?-remove_at_lt :
    (i k : ℕ) (es : List ClockEntry) → i < k → get_elem? (remove_at k es) i ≡ get_elem? es i
get_elem?-remove_at_lt i k [] h = refl
get_elem?-remove_at_lt i zero (x ∷ es) h = absurd (omega arith)
get_elem?-remove_at_lt zero (suc k) (x ∷ es) h = refl
get_elem?-remove_at_lt (suc i) (suc k) (x ∷ es) h = get_elem?-remove_at_lt i k es (omega arith)

get_elem?-remove_first :
    (i : ℕ) (es : List ClockEntry) → get_elem? (remove_at 0 es) i ≡ get_elem? es (suc i)
get_elem?-remove_first i [] = refl
get_elem?-remove_first i (x ∷ es) = refl

-- The victim comes from the face; one entry is erased, so the hand may stand at the end; and unless the
-- victim was alone its own entry is still there, because the entry after it is the one that is erased.
pub record Selected (p : ClockPolicy) (r : ClockPolicy × ℕ) : Type 0 where
  pub shorter : length r.0.clock_hand_vec + 1 ≡ length p.clock_hand_vec
  pub hand_le : r.0.hand_pos ≤ length r.0.clock_hand_vec
  pub stays :
      (length p.clock_hand_vec < 2)
      ⊎ ((i : ℕ) × (e : ClockEntry) × (get_elem? r.0.clock_hand_vec i ≡ some e) × (e.vpn ≡ r.1))

victim_stays :
    (p : ClockPolicy) (e : ClockEntry)
    → get_elem? p.clock_hand_vec p.hand_pos ≡ some e
    → 2 ≤ length p.clock_hand_vec
    → (i : ℕ) × (get_elem? (take_victim p e).0.clock_hand_vec i ≡ some e)
unfolding take_victim
victim_stays p e here h =
    let n = length p.clock_hand_vec in
    let lt = get_elem?-lt p.clock_hand_vec p.hand_pos e here in
    let w = wrap_lem p.hand_pos n 1 lt (omega arith) in
    elim (Bool-cases (ltb (p.hand_pos + 1) n)) [
      | inl inside ↦ (
        p.hand_pos,
        get_elem?-remove_at_lt p.hand_pos _ p.clock_hand_vec (ground (arith, w)) ∙ here,
      )
      | inr end ↦
          let first : (p.hand_pos + 1) % n ≡ 0 = ground (arith, w) in
          let back : suc (p.hand_pos - 1) ≡ p.hand_pos = ground arith in
          (
            p.hand_pos - 1,
            rw (first, get_elem?-remove_first (p.hand_pos - 1) p.clock_hand_vec, back) here,
          )
    ]

take_victim-Selected :
    (p : ClockPolicy) (e : ClockEntry)
    → get_elem? p.clock_hand_vec p.hand_pos ≡ some e
    → Selected p (take_victim p e)
unfolding take_victim
take_victim-Selected p e here =
    let n = length p.clock_hand_vec in
    let lt = get_elem?-lt p.clock_hand_vec p.hand_pos e here in
    let hand : (p.hand_pos + 1) % n < n = mod-lt _ (omega arith) in
    let less = length-remove_at ((p.hand_pos + 1) % n) p.clock_hand_vec hand in
    record {
      shorter = less;
      hand_le = omega arith;
      stays = elim (Bool-cases (ltb n 2)) [
        | inl alone ↦ inl (ltb→lt n 2 alone)
        | inr more ↦ let (i, q) = victim_stays p e here (ltb→le n 2 more) in inr (i, e, q, refl)
      ];
    }

select_loop_total :
    (fuel : ℕ) (p : ClockPolicy)
    → bits p.clock_hand_vec < fuel
    → p.hand_pos < length p.clock_hand_vec
    → (r : ClockPolicy × ℕ) × (select_loop fuel p ≡ some (ok r)) × Selected p r
unfolding pass
select_loop_total zero p h l = elim h [ ]
select_loop_total (suc fuel) p h l =
    let (e, here) = get_elem?-in_range p.clock_hand_vec p.hand_pos l in
    elim (Bool-cases e.reference_bit) [
      | inr clear ↦
          (take_victim p e, select_loop-stop p e here fuel clear, take_victim-Selected p e here)
      | inl used ↦
          let fewer = bits-clear p.clock_hand_vec p.hand_pos e here used in
          let size = length-pass p e here in
          let (r, run, s) =
            select_loop_total fuel (pass p e) (omega (arith, fewer, h)) (hand-pass p e here) in
          (
            r,
            select_loop-pass p e here fuel used ∙ run,
            (record {
              shorter = s.shorter ∙ size;
              hand_le = s.hand_le;
              stays = rw size at s.stays;
            }),
          )
    ]

-- With the hand in range `select_victim` ends without a fault and takes one entry off the face; where there were
-- two or more, the victim is still on the face.
pub select_victim_total :
    (p : ClockPolicy)
    → p.hand_pos < length p.clock_hand_vec
    → Returns (select_victim p) (Selected p)
select_victim_total p l =
    let n = length p.clock_hand_vec in
    let (r, run, s) =
      select_loop_total (n + 1) p (omega (arith, bits-le-length p.clock_hand_vec)) l in
    (r, select_victim-loop p r l run, s)

select_loop_fault :
    (fuel : ℕ) (p : ClockPolicy)
    → length p.clock_hand_vec ≤ p.hand_pos
    → select_loop (suc fuel) p ≡ some fault
unfolding select_loop
select_loop_fault fuel p out = rw (get_elem?-out p.clock_hand_vec p.hand_pos out, select_loop)

-- On a face that is not empty, with the hand past the end, `select_victim` reads out of range.
pub select_victim_fault :
    (p : ClockPolicy)
    → 0 < length p.clock_hand_vec
    → length p.clock_hand_vec ≤ p.hand_pos
    → select_victim p ≡ fault
unfolding select_victim
select_victim_fault p pos out =
    let n = length p.clock_hand_vec in
    let fuel : n + 1 ≡ suc n = omega arith in
    let loop : select_loop (n + 1) p ≡ some fault = rw fuel (select_loop_fault n p out) in
    ground (arith, loop)

-- On a new policy for two or more pages that was given two pages, the first eviction returns the first page, and
-- the next eviction reads out of range.
pub two_pages_fault :
    (max_pages a b : ℕ)
    → 2 ≤ max_pages
    → Returns
        (select_victim (on_page_allocated (on_page_allocated (create max_pages) a) b))
        λ r. (r.1 ≡ a) × (select_victim r.0 ≡ fault)
unfolding on_page_allocated create select_victim
two_pages_fault max_pages a b h =
    let one : ltb max_pages 1 ≡ false = ground arith in
    let two : ltb max_pages 2 ≡ false = ground arith in
    let left : ClockEntry = record { vpn = a; reference_bit = false } in
    (
      (record { clock_hand_vec = left ∷ []; hand_pos = 1; max_pages = max_pages }, a),
      rw (one, two),
      (refl, refl),
    )
