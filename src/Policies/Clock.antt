-- ===== src/Policies/Clock.antt =====
-- `CLOCKPolicy`: pages on a clock face, with a hand.
pub mod SecondChance
pub mod Cleared
pub mod Total
use gpu_vmm.Prelude.{
  ℕ, zero, suc, ◌+◌, ◌%◌, ◌≡◌, Bool, true, false, not, ◌&&◌, Option, none, some, List, [], ◌∷◌,
  ◌++◌, if◌then◌else◌, ltb, leb, ◌==◌, length, set, get_elem?, remove_at, Run, ok, fault, ◌>>=◌,
}

pub record ClockEntry : Type 0 where
  pub vpn : ℕ
  pub reference_bit : Bool

pub record ClockPolicy : Type 0 where
  pub clock_hand_vec : List ClockEntry
  pub hand_pos : ℕ
  pub max_pages : ℕ

unfoldable pub create : ℕ → ClockPolicy
create max_pages = record { clock_hand_vec = []; hand_pos = 0; max_pages = max_pages }

-- The loop of `on_page_access`.
unfoldable pub set_reference : ℕ → List ClockEntry → List ClockEntry
set_reference vpn [] = []
set_reference vpn (e ∷ es) =
    if e.vpn == vpn then record e { reference_bit = true } ∷ es else e ∷ set_reference vpn es

unfoldable pub on_page_access : ClockPolicy → ℕ → ClockPolicy
unfolding set_reference
on_page_access p vpn = record p { clock_hand_vec = set_reference vpn p.clock_hand_vec }

-- `if (hand_pos_ >= size && !empty) hand_pos_ = 0`
unfoldable pub wrap_hand : ClockPolicy → ClockPolicy
wrap_hand p = elim p.clock_hand_vec [
  | [] ↦ p
  | e ∷ es ↦ if leb (length p.clock_hand_vec) p.hand_pos then record p { hand_pos = 0 } else p
]

-- One round of `while (size > max_pages_)`: the page at the hand goes.
unfoldable pub drop_at_hand : ClockPolicy → ClockPolicy
unfolding wrap_hand
drop_at_hand p =
    let hand = if leb (length p.clock_hand_vec) p.hand_pos then 0 else p.hand_pos in
    wrap_hand (record p { clock_hand_vec = remove_at hand p.clock_hand_vec; hand_pos = hand })

-- The loop, with fuel for its rounds: each takes one page off.
unfoldable pub trim : ℕ → ClockPolicy → ClockPolicy
unfolding drop_at_hand
trim zero p = p
trim (suc fuel) p =
    let rest = trim fuel (drop_at_hand p) in
    if ltb p.max_pages (length p.clock_hand_vec) then rest else p

unfoldable pub on_page_allocated : ClockPolicy → ℕ → ClockPolicy
unfolding trim
on_page_allocated p vpn =
    let q = record p {
      clock_hand_vec = p.clock_hand_vec ++ record { vpn = vpn; reference_bit = true } ∷ [];
    } in
    trim (length q.clock_hand_vec) q

-- The loop of `on_page_freed`: the index of the first entry of the page.
unfoldable pub index_of : ℕ → List ClockEntry → Option ℕ
index_of vpn [] = none
index_of vpn (e ∷ es) =
    let rest : Option ℕ = elim (index_of vpn es) [ none ↦ none | some i ↦ some (suc i) ] in
    if e.vpn == vpn then some 0 else rest

unfoldable pub on_page_freed : ClockPolicy → ℕ → ClockPolicy
unfolding index_of wrap_hand
on_page_freed p vpn = elim (index_of vpn p.clock_hand_vec) [
  | none ↦ p
  | some i ↦ wrap_hand (record p { clock_hand_vec = remove_at i p.clock_hand_vec })
]

-- The last statements of both places that return a victim: the hand moves on, and then the entry at the
-- hand is erased.
unfoldable pub take_victim : ClockPolicy → ClockEntry → ClockPolicy × ℕ
take_victim p e =
    let hand = (p.hand_pos + 1) % length p.clock_hand_vec in
    (record p { clock_hand_vec = remove_at hand p.clock_hand_vec; hand_pos = hand }, e.vpn)

-- What a round of `while (hand_pos_ < size)` meets at the hand: `none` ends the loop.
unfoldable pub pass : ClockPolicy → ClockEntry → ClockPolicy
pass p e = record p {
  clock_hand_vec = set p.clock_hand_vec p.hand_pos (record e { reference_bit = false });
  hand_pos = (p.hand_pos + 1) % length p.clock_hand_vec;
}

-- After the loop the source reads `clock_hand_vec_[hand_pos_]`, with the hand past the end: a fault.
-- The outer `none` is fuel that ran out.
unfoldable pub select_loop : ℕ → ClockPolicy → Option (Run (ClockPolicy × ℕ))
unfolding take_victim pass
select_loop zero p = none
select_loop (suc fuel) p = elim (get_elem? p.clock_hand_vec p.hand_pos) [
  | none ↦ some fault
  | some e ↦ elim e.reference_bit [
    | false ↦ some (ok (take_victim p e))
    | true ↦ select_loop fuel (pass p e)
  ]
]

-- One round for each page and one more.
unfoldable pub select_victim : ClockPolicy → Run (ClockPolicy × ℕ)
unfolding select_loop
select_victim p = elim p.clock_hand_vec [
  | [] ↦ ok (p, 0)
  | _ ∷ _ ↦ elim (select_loop (length p.clock_hand_vec + 1) p) [ none ↦ fault | some r ↦ r ]
]

unfoldable pub reset : ClockPolicy → ClockPolicy
reset p = record p { clock_hand_vec = []; hand_pos = 0 }
