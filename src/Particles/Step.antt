-- ===== src/Particles/Step.antt =====
-- The step in place against the step that treats all particles at once.
use mathlib.Core.List.{append_assoc}
use gpu_vmm.Prelude.{
  ℕ, zero, suc, ◌+◌, ◌≡◌, refl, sym, ◌∙◌, ap, Option, none, some, List, [], ◌∷◌, ◌++◌, map, length,
  set, if◌then◌else◌, ◌==◌, arith, Bool-cases, inl, inr, length-append, get_elem?-append,
  set-append,
}
use gpu_vmm.Particles.{
  Floats, Particle, at_rest, attract, gather, compute_acceleration, acceleration_loop, integrate,
  integrate_particles, energy_loop, compute_kinetic_energy, simulate,
}

module _ {F : Type 0} (f : Floats F) where
  -- The particles of `particles` from index `i` on, each with the acceleration that the particles of `all` give it.
  unfoldable pub all_accelerated : List (Particle F) → ℕ → List (Particle F) → List (Particle F)
  all_accelerated all i [] = []
  all_accelerated all i (p ∷ particles) =
      gather f i 0 (at_rest f p) all ∷ all_accelerated all (i + 1) particles

  -- A step that computes every acceleration from the particles as they were before the step.
  unfoldable pub step_at_once : F → List (Particle F) → List (Particle F)
  step_at_once dt particles = map (integrate f dt) (all_accelerated particles 0 particles)

  at_rest-attract : (p q : Particle F) → at_rest f (attract f p q) ≡ at_rest f p
  unfolding attract at_rest
  at_rest-attract p q = refl

  at_rest-at_rest : (p : Particle F) → at_rest f (at_rest f p) ≡ at_rest f p
  unfolding at_rest
  at_rest-at_rest p = refl

  gather-at_rest :
      (own i : ℕ) (p : Particle F) (all : List (Particle F))
      → gather f own i p (map (at_rest f) all) ≡ gather f own i p all
  unfolding gather at_rest
  gather-at_rest own i p [] = refl
  gather-at_rest own i p (q ∷ all) =
      gather-at_rest own (i + 1) (if i == own then p else attract f p q) all

  at_rest-gather :
      (own i : ℕ) (p : Particle F) (all : List (Particle F))
      → at_rest f (gather f own i p all) ≡ at_rest f p
  unfolding gather
  at_rest-gather own i p [] = refl
  at_rest-gather own i p (q ∷ all) =
      let rest = at_rest-gather own (i + 1) (if i == own then p else attract f p q) all in
      elim (Bool-cases (i == own)) [
        | inl here ↦ rest ∙ rw here refl
        | inr there ↦ rest ∙ rw there (at_rest-attract p q)
      ]

  -- The accelerations that the particles have play no part.
  gather_congr :
      (own i : ℕ) (p : Particle F) (all other : List (Particle F))
      → map (at_rest f) all ≡ map (at_rest f) other
      → gather f own i p all ≡ gather f own i p other
  gather_congr own i p all other same =
      sym (gather-at_rest own i p all) ∙ ap (gather f own i p) same ∙ gather-at_rest own i p other

  all_accelerated_congr :
      (all other : List (Particle F)) (i : ℕ) (particles : List (Particle F))
      → map (at_rest f) all ≡ map (at_rest f) other
      → all_accelerated all i particles ≡ all_accelerated other i particles
  unfolding all_accelerated
  all_accelerated_congr all other i [] same = refl
  all_accelerated_congr all other i (p ∷ particles) same =
      let first = gather_congr i 0 (at_rest f p) all other same in
      rw (first, all_accelerated_congr all other (i + 1) particles same) refl

  compute_acceleration_at :
      (before : List (Particle F)) (p : Particle F) (particles : List (Particle F))
      → compute_acceleration f (length before) (before ++ p ∷ particles)
        ≡ before ++ gather f (length before) 0 (at_rest f p) (before ++ p ∷ particles) ∷ particles
  unfolding compute_acceleration
  compute_acceleration_at before p particles =
      let here : length before + 0 ≡ length before = omega arith in
      let found = rw here at (get_elem?-append before (p ∷ particles) 0) in
      let q = gather f (length before) 0 (at_rest f p) (before ++ p ∷ particles) in
      let written = rw here at (set-append before (p ∷ particles) 0 q) in
      ap
        (λ (o : Option (Particle F)). elim o [
          | none ↦ before ++ p ∷ particles
          | some own ↦
              set (before ++ p ∷ particles) (length before)
                (gather f (length before) 0 (at_rest f own) (before ++ p ∷ particles))
        ])
        found
      ∙ written

  map-replaced :
      (before : List (Particle F)) (p q : Particle F) (particles : List (Particle F))
      → at_rest f q ≡ at_rest f p
      → map (at_rest f) ((before ++ q ∷ []) ++ particles)
        ≡ map (at_rest f) (before ++ p ∷ particles)
  map-replaced [] p q particles h = ap (λ x. x ∷ map (at_rest f) particles) h
  map-replaced (b ∷ before) p q particles h =
      ap (λ l. at_rest f b ∷ l) (map-replaced before p q particles h)

  acceleration_loop_lem :
      (left : ℕ) (before particles all : List (Particle F))
      → length particles ≡ left
      → map (at_rest f) (before ++ particles) ≡ map (at_rest f) all
      → acceleration_loop f left (length before) (before ++ particles)
        ≡ before ++ all_accelerated all (length before) particles
  unfolding acceleration_loop all_accelerated
  acceleration_loop_lem zero before [] all h same = refl
  acceleration_loop_lem zero before (p ∷ particles) all h same = absurd (omega arith)
  acceleration_loop_lem (suc left) before [] all h same = absurd (omega arith)
  acceleration_loop_lem (suc left) before (p ∷ particles) all h same =
      let old = before ++ p ∷ particles in
      let q = gather f (length before) 0 (at_rest f p) old in
      let now = compute_acceleration_at before p particles in
      let behind : length (before ++ q ∷ []) ≡ length before + 1 =
        omega (arith, length-append before (q ∷ [])) in
      let kept : map (at_rest f) ((before ++ q ∷ []) ++ particles) ≡ map (at_rest f) all =
        map-replaced before p q particles
          (at_rest-gather (length before) 0 (at_rest f p) old ∙ at_rest-at_rest p)
        ∙ same in
      let rest = acceleration_loop_lem left (before ++ q ∷ []) particles all (omega arith) kept in
      let joined = append_assoc before (q ∷ []) particles in
      let joined' =
        append_assoc before (q ∷ []) (all_accelerated all (length before + 1) particles) in
      let given = gather_congr (length before) 0 (at_rest f p) old all same in
      rw now (rw (behind, joined, joined') at rest)
      ∙ ap (λ x. before ++ x ∷ all_accelerated all (length before + 1) particles) given

  map-integrate :
      (dt : F) (particles : List (Particle F))
      → integrate_particles f dt particles ≡ map (integrate f dt) particles
  unfolding integrate_particles
  map-integrate dt [] = refl
  map-integrate dt (p ∷ particles) = ap (λ l. integrate f dt p ∷ l) (map-integrate dt particles)

  accelerated_lem :
      (particles : List (Particle F))
      → acceleration_loop f (length particles) 0 particles ≡ all_accelerated particles 0 particles
  accelerated_lem particles =
      acceleration_loop_lem (length particles) [] particles particles refl refl

  map-all_accelerated :
      (all : List (Particle F)) (i : ℕ) (particles : List (Particle F))
      → map (at_rest f) (all_accelerated all i particles) ≡ map (at_rest f) particles
  unfolding all_accelerated
  map-all_accelerated all i [] = refl
  map-all_accelerated all i (p ∷ particles) =
      rw
        (
          map-all_accelerated all (i + 1) particles,
          at_rest-gather i 0 (at_rest f p) all,
          at_rest-at_rest p,
        )
        refl

  energy_loop-at_rest :
      (particles : List (Particle F)) (ke : F)
      → energy_loop f ke (map (at_rest f) particles) ≡ energy_loop f ke particles
  unfolding energy_loop at_rest
  energy_loop-at_rest [] ke = refl
  energy_loop-at_rest (p ∷ particles) ke = energy_loop-at_rest particles _

  -- Any number of steps at once.
  unfoldable pub simulate_at_once : F → ℕ → List (Particle F) → List (Particle F)
  unfolding step_at_once
  simulate_at_once dt zero particles = particles
  simulate_at_once dt (suc steps) particles = simulate_at_once dt steps (step_at_once dt particles)

  simulate-at_once :
      (dt : F) (steps : ℕ) (particles : List (Particle F))
      → simulate f dt steps particles ≡ simulate_at_once dt steps particles
  unfolding simulate simulate_at_once step_at_once
  simulate-at_once dt zero particles = refl
  simulate-at_once dt (suc steps) particles =
      rw
        (
          map-integrate dt (acceleration_loop f (length particles) 0 particles),
          accelerated_lem particles,
        )
        (simulate-at_once dt steps (map (integrate f dt) (all_accelerated particles 0 particles)))

-- The simulation updates the accelerations in place, one particle after another, and yet every step is the one that
-- takes each acceleration from all the particles as they were before the step, whatever the arithmetic on `float`
-- is. Computing the accelerations leaves the kinetic energy as it is.
pub simulate_lem :
    {F : Type 0} (f : Floats F) (dt : F) (steps : ℕ) (particles : List (Particle F))
    → (simulate f dt steps particles ≡ simulate_at_once f dt steps particles)
      × (compute_kinetic_energy f (acceleration_loop f (length particles) 0 particles)
          ≡ compute_kinetic_energy f particles)
unfolding compute_kinetic_energy
simulate_lem f dt steps particles =
    let kept =
      ap (map (at_rest f)) (accelerated_lem f particles)
      ∙ map-all_accelerated f particles 0 particles in
    (
      simulate-at_once f dt steps particles,
      sym (energy_loop-at_rest f (acceleration_loop f (length particles) 0 particles) f.zero_f)
          ∙ ap (energy_loop f f.zero_f) kept
          ∙ energy_loop-at_rest f particles f.zero_f,
    )
