-- ===== src/Policies/Clock/Cleared.antt =====
-- The clock face that `CLOCKPolicy::select_victim` leaves, entry by entry.
use mathlib.Core.Option
use mathlib.Core.Path.{ap₂}
use native.Mathlib.Nat.{mod-add-mod}
use gpu_vmm.Prelude.{
  ℕ, zero, suc, ◌+◌, ◌-◌, ◌%◌, ◌<◌, ◌≡◌, refl, sym, ◌∙◌, ap, true, false, some, List, [], ◌∷◌,
  arith, length, set, get_elem?, remove_at, if◌then◌else◌, ltb, leb, ◌==◌, ok, Bool-cases, ==→eq,
  ==→ne, inl, inr, Bool, Option-cases, ◌≢◌, get_elem?-set_self, get_elem?-set_ne,
  get_elem?-in_range, get_elem?-lt,
}
use gpu_vmm.Policies.Clock.{ClockEntry, ClockPolicy, pass, take_victim, select_victim}
use gpu_vmm.Policies.Clock.SecondChance.{
  ahead, AllSet, passed, wrap_lem, ahead-zero, ahead-pass, passed-zero, passed-suc, length-pass,
  hand-pass, select_victim_stops,
}

-- How far the index `i` of a face of `n` entries is ahead of `hand`.
abbrev pub distance : ℕ → ℕ → ℕ → ℕ
distance hand n i = if leb hand i then i - hand else i + n - hand

abbrev pub unreferenced : ClockEntry → ClockEntry
unreferenced e = record e { reference_bit = false }

-- The entries from index `i` on: those less than `d` places ahead of the hand lose their bit.
unfoldable pub cleared : ℕ → ℕ → ℕ → ℕ → List ClockEntry → List ClockEntry
cleared hand n d i [] = []
cleared hand n d i (e ∷ es) =
    (if ltb (distance hand n i) d then unreferenced e else e) ∷ cleared hand n d (i + 1) es

get_elem?-cleared :
    (hand n d i j : ℕ) (es : List ClockEntry)
    → get_elem? (cleared hand n d i es) j
      ≡ Option.map
          (λ e. if ltb (distance hand n (i + j)) d then unreferenced e else e)
          (get_elem? es j)
unfolding cleared
get_elem?-cleared hand n d i j [] = refl
get_elem?-cleared hand n d i zero (e ∷ es) = let z : i + 0 ≡ i = omega arith in rw z refl
get_elem?-cleared hand n d i (suc j) (e ∷ es) =
    let z : i + 1 + j ≡ i + suc j = omega arith in rw z at (get_elem?-cleared hand n d (i + 1) j es)

cleared_none : (hand n i : ℕ) (es : List ClockEntry) → cleared hand n 0 i es ≡ es
unfolding cleared
cleared_none hand n i [] = refl
cleared_none hand n i (e ∷ es) =
    let z : ltb (distance hand n i) 0 ≡ false = ground arith in
    rw (z, cleared_none hand n (i + 1) es) refl

faces_ext : (xs ys : List ClockEntry) → ((i : ℕ) → get_elem? xs i ≡ get_elem? ys i) → xs ≡ ys
faces_ext [] [] h = refl
faces_ext [] (y ∷ ys) h = let z = h 0 in absurd (ground (arith, z))
faces_ext (x ∷ xs) [] h = let z = h 0 in absurd (ground (arith, z))
faces_ext (x ∷ xs) (y ∷ ys) h =
    let z = h 0 in ap₂ (◌∷◌) (ground (arith, z)) (faces_ext xs ys (λ i. h (suc i)))

get_elem?-face :
    (hand n d j : ℕ) (es : List ClockEntry)
    → get_elem? (cleared hand n d 0 es) j
      ≡ Option.map (λ e. if ltb (distance hand n j) d then unreferenced e else e) (get_elem? es j)
get_elem?-face hand n d j es =
    let z : 0 + j ≡ j = omega arith in rw z at (get_elem?-cleared hand n d 0 j es)

distance_next :
    (hand n d i : ℕ)
    → hand < n
    → i < n
    → hand ≢ i
    → ltb (distance (if ltb (hand + 1) n then hand + 1 else hand + 1 - n) n i) d
      ≡ ltb (distance hand n i) (suc d)
distance_next hand n d i l k ne = ground arith

either_way :
    (b c : Bool) (e : ClockEntry)
    → c ≡ true
    → (if b then unreferenced (unreferenced e) else unreferenced e)
      ≡ (if c then unreferenced e else e)
either_way true c e h = rw h refl
either_way false c e h = rw h refl

-- One more round clears one more bit.
cleared-set :
    (hand d : ℕ) (es : List ClockEntry) (e : ClockEntry)
    → hand < length es
    → d < length es
    → get_elem? es hand ≡ some e
    → cleared ((hand + 1) % length es) (length es) d 0 (set es hand (unreferenced e))
      ≡ cleared hand (length es) (suc d) 0 es
cleared-set hand d es e l k here =
    let n = length es in
    let next = wrap_lem hand n 1 l (omega arith) in
    faces_ext (cleared ((hand + 1) % n) n d 0 (set es hand (unreferenced e)))
      (cleared hand n (suc d) 0 es)
      (λ i.
        let a = get_elem?-face ((hand + 1) % n) n d i (set es hand (unreferenced e)) in
        let b = get_elem?-face hand n (suc d) i es in
        elim (Bool-cases (hand == i)) [
          | inl own ↦
              let same = ==→eq hand i own in
              let written : get_elem? (set es hand (unreferenced e)) i ≡ some (unreferenced e) =
                ap (get_elem? (set es hand (unreferenced e))) (sym same)
                ∙ get_elem?-set_self es hand (unreferenced e) l in
              let read : get_elem? es i ≡ some e = ap (get_elem? es) (sym same) ∙ here in
              let near : ltb (distance hand n i) (suc d) ≡ true = ground (arith, same) in
              a
              ∙ ap
                  (Option.map
                    (λ x. if ltb (distance ((hand + 1) % n) n i) d then unreferenced x else x))
                  written
              ∙ ap some (
                  either_way (ltb (distance ((hand + 1) % n) n i) d)
                    (ltb (distance hand n i) (suc d)) e near)
              ∙ sym (
                  b
                  ∙ ap
                      (Option.map
                        (λ x. if ltb (distance hand n i) (suc d) then unreferenced x else x))
                      read)
          | inr other ↦
              let ne = ==→ne hand i other in
              let unwritten = get_elem?-set_ne es hand i (unreferenced e) ne in
              elim (Option-cases (get_elem? es i)) [
                | inl none_there ↦
                    a
                    ∙ ap (Option.map _) (unwritten ∙ none_there)
                    ∙ sym (b ∙ ap (Option.map _) none_there)
                | inr (x, there) ↦
                    let near : ltb (distance ((hand + 1) % n) n i) d
                        ≡ ltb (distance hand n i) (suc d) =
                      ap (λ h. ltb (distance h n i) d) next
                      ∙ distance_next hand n d i l (get_elem?-lt es i x there) ne in
                    a
                    ∙ ap (Option.map _) (unwritten ∙ there)
                    ∙ ap (λ t. some (if t then unreferenced x else x)) near
                    ∙ sym (b ∙ ap (Option.map _) there)
              ]
        ])

abbrev turned : ClockPolicy → List ClockEntry → ℕ → ClockPolicy
turned p face hand = record p { clock_hand_vec = face; hand_pos = hand }

turned-pass :
    (p : ClockPolicy) (e : ClockEntry) (d : ℕ)
    → get_elem? p.clock_hand_vec p.hand_pos ≡ some e
    → p.hand_pos < length p.clock_hand_vec
    → d < length p.clock_hand_vec
    → turned
        (pass p e)
        (cleared (pass p e).hand_pos (length p.clock_hand_vec) d 0 (pass p e).clock_hand_vec)
        (ahead p (suc d))
      ≡ turned p
          (cleared p.hand_pos (length p.clock_hand_vec) (suc d) 0 p.clock_hand_vec)
          (ahead p (suc d))
unfolding pass
turned-pass p e d here l k =
    ap (λ face. turned p face (ahead p (suc d)))
      (cleared-set p.hand_pos d p.clock_hand_vec e l k here)

-- What the rounds leave.
passed_lem :
    (d : ℕ) (p : ClockPolicy)
    → p.hand_pos < length p.clock_hand_vec
    → d < length p.clock_hand_vec
    → passed d p
      ≡ turned p (cleared p.hand_pos (length p.clock_hand_vec) d 0 p.clock_hand_vec) (ahead p d)
passed_lem zero p l k =
    passed-zero p
    ∙ ap₂ (turned p) (sym (cleared_none p.hand_pos (length p.clock_hand_vec) 0 p.clock_hand_vec))
        (sym (ahead-zero p l))
passed_lem (suc d) p l k =
    let n = length p.clock_hand_vec in
    let (e, here) = get_elem?-in_range p.clock_hand_vec p.hand_pos l in
    let size = length-pass p e here in
    let rest = passed_lem d (pass p e) (hand-pass p e here) (omega (arith, size)) in
    passed-suc d p e here
    ∙ rest
    ∙ ap
        (λ (m : ℕ).
          turned (pass p e) (cleared (pass p e).hand_pos m d 0 (pass p e).clock_hand_vec)
            (ahead (pass p e) d))
        size
    ∙ ap (turned (pass p e) (cleared (pass p e).hand_pos n d 0 (pass p e).clock_hand_vec))
        (ahead-pass p e here d (omega arith))
    ∙ turned-pass p e d here l (omega arith)

-- The victim and what `select_victim` leaves: the hand one place past the victim, and the entry there erased.
abbrev pub evicted : ClockPolicy → ℕ → ClockPolicy
evicted p d = record p {
  clock_hand_vec =
      remove_at (ahead p (suc d))
        (cleared p.hand_pos (length p.clock_hand_vec) d 0 p.clock_hand_vec);
  hand_pos = ahead p (suc d);
}

length-cleared :
    (hand n d i : ℕ) (es : List ClockEntry) → length (cleared hand n d i es) ≡ length es
unfolding cleared
length-cleared hand n d i [] = refl
length-cleared hand n d i (e ∷ es) = ap suc (length-cleared hand n d (i + 1) es)

take_victim-passed :
    (p : ClockPolicy) (d : ℕ) (e : ClockEntry)
    → p.hand_pos < length p.clock_hand_vec
    → d < length p.clock_hand_vec
    → take_victim (passed d p) e ≡ (evicted p d, e.vpn)
unfolding take_victim
take_victim-passed p d e l k =
    let n = length p.clock_hand_vec in
    let face = cleared p.hand_pos n d 0 p.clock_hand_vec in
    let moved : (ahead p d + 1) % length face ≡ ahead p (suc d) =
      ap (λ (m : ℕ). (ahead p d + 1) % m) (length-cleared p.hand_pos n d 0 p.clock_hand_vec)
      ∙ mod-add-mod (p.hand_pos + d) n 1
      ∙ ap (λ (i : ℕ). i % n)
          (let z : p.hand_pos + d + 1 ≡ p.hand_pos + suc d = omega arith in z) in
    ap (λ q. take_victim q e) (passed_lem d p l k)
    ∙ ap (λ (h : ℕ). (turned p (remove_at h face) h, e.vpn)) moved

-- On a face whose hand is in range, if the `d` pages from the hand on have their reference bits set and the next
-- one has not, `select_victim` returns that one as the victim. It clears the bits of the `d` pages and changes no
-- other entry, leaves the hand one place past the victim, round the face, and erases the entry there.
pub select_victim-second_chance :
    (p : ClockPolicy) (d : ℕ) (e : ClockEntry)
    → p.hand_pos < length p.clock_hand_vec
    → d < length p.clock_hand_vec
    → AllSet p d
    → get_elem? p.clock_hand_vec (ahead p d) ≡ some e
    → e.reference_bit ≡ false
    → select_victim p ≡ ok (evicted p d, e.vpn)
select_victim-second_chance p d e l k all at_d clear =
    select_victim_stops p d e l k all at_d clear ∙ ap ok (take_victim-passed p d e l k)
