-- ===== src/Tests/Victims.antt =====
-- Victims of both policies.
use gpu_vmm.Prelude.{zero, suc, ◌≡◌, refl, true, false, [], ◌∷◌, arith, take, Returns, ok, fault}
use gpu_vmm.Policies.Lru
use gpu_vmm.Policies.Lru.Fifo.{
  accessed, allocated, freed, run, victims, keep_last, allocations, victims-run,
}
use gpu_vmm.Policies.Clock.{ClockEntry, ClockPolicy, create, on_page_allocated, select_victim}
use gpu_vmm.Policies.Clock.SecondChance.{AllSet}
use gpu_vmm.Policies.Clock.Cleared.{cleared, evicted, select_victim-second_chance}
use gpu_vmm.Policies.Clock.Total.{Selected, select_victim_total, two_pages_fault}

victims-run_example :
    victims 2
      (run (Lru.create 2) (allocated 5 ∷ allocated 6 ∷ accessed 6 ∷ allocated 7 ∷ freed 7 ∷ []))
    ≡ take 2 (
        keep_last 2
          (allocations (allocated 5 ∷ allocated 6 ∷ accessed 6 ∷ allocated 7 ∷ freed 7 ∷ [])))
unfolding keep_last allocations
victims-run_example =
    victims-run 2 2 (allocated 5 ∷ allocated 6 ∷ accessed 6 ∷ allocated 7 ∷ freed 7 ∷ [])
      (omega arith)

abbrev used_page : ClockEntry
used_page = record { vpn = 5; reference_bit = true }

abbrev old_page : ClockEntry
old_page = record { vpn = 6; reference_bit = false }

abbrev face : ClockPolicy
face = record { clock_hand_vec = used_page ∷ old_page ∷ []; hand_pos = 0; max_pages = 8 }

abbrev used_face : ClockPolicy
used_face = record { clock_hand_vec = used_page ∷ []; hand_pos = 0; max_pages = 8 }

first_used : AllSet face 1
first_used zero h = refl
first_used (suc j) h = absurd (omega arith)

all_used : AllSet used_face 1
all_used zero h = refl
all_used (suc j) h = absurd (omega arith)

select_victim-second_chance_example : select_victim face ≡ ok (evicted face 1, 6)
select_victim-second_chance_example =
    select_victim-second_chance face 1 old_page (omega arith) (omega arith) first_used refl refl

-- The victim stays on the face, and the other page, its bit cleared, is gone.
face_after : evicted face 1 ≡ record face { clock_hand_vec = old_page ∷ []; hand_pos = 0 }
unfolding cleared
face_after = refl

select_victim_total_example : Returns (select_victim face) (Selected face)
select_victim_total_example = select_victim_total face (omega arith)

two_pages_fault_example :
    Returns
      (select_victim (on_page_allocated (on_page_allocated (create 8) 5) 6))
      λ r. (r.1 ≡ 5) × (select_victim r.0 ≡ fault)
two_pages_fault_example = two_pages_fault 8 5 6 (omega arith)
