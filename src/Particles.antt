-- ===== src/Particles.antt =====
-- src/examples/nbody_gpu_vm.cpp: the simulation on the array of the particles. The arithmetic on `float` is not the
-- program's: it is a parameter, of which nothing is assumed.
pub mod Step
use gpu_vmm.Prelude.{
  ℕ, zero, suc, ◌+◌, ◌*◌, Option, none, some, List, [], ◌∷◌, map, length, set, get_elem?,
  if◌then◌else◌, ◌==◌,
}

-- The operations on `float`, the literals 0.0f, 0.5f and 1.0f, and 0.1f.
pub record Floats (F : Type 0) : Type 0 where
  pub add : F → F → F
  pub sub : F → F → F
  pub mul : F → F → F
  pub div : F → F → F
  pub sqrt : F → F
  pub zero_f : F
  pub half_f : F
  pub one_f : F
  pub tenth_f : F

pub record Particle (F : Type 0) : Type 0 where
  pub x : F
  pub y : F
  pub z : F
  pub vx : F
  pub vy : F
  pub vz : F
  pub ax : F
  pub ay : F
  pub az : F
  pub mass : F

module _ {F : Type 0} (f : Floats F) where
  -- `p.ax = p.ay = p.az = 0.0f`
  unfoldable pub at_rest : Particle F → Particle F
  at_rest p = record p { ax = f.zero_f; ay = f.zero_f; az = f.zero_f }

  -- What the particle `q` adds to the acceleration of `p`.
  unfoldable pub attract : Particle F → Particle F → Particle F
  attract p q =
      let dx = f.sub q.x p.x in
      let dy = f.sub q.y p.y in
      let dz = f.sub q.z p.z in
      let squares = f.add (f.add (f.mul dx dx) (f.mul dy dy)) (f.mul dz dz) in
      let dist_sq = f.add squares (f.mul p.mass p.mass) in
      let dist = f.sqrt dist_sq in
      let inv_dist_cubed = f.div f.one_f (f.mul dist_sq dist) in
      record p {
        ax = f.add p.ax (f.mul (f.mul q.mass dx) inv_dist_cubed);
        ay = f.add p.ay (f.mul (f.mul q.mass dy) inv_dist_cubed);
        az = f.add p.az (f.mul (f.mul q.mass dz) inv_dist_cubed);
      }

  -- The loop over the particles from index `i` on, for the particle at `own`, which skips itself.
  unfoldable pub gather : ℕ → ℕ → Particle F → List (Particle F) → Particle F
  unfolding attract
  gather own i p [] = p
  gather own i p (q ∷ particles) =
      gather own (i + 1) (if i == own then p else attract p q) particles

  -- `compute_acceleration(particles[own], particles, num_particles)`
  unfoldable pub compute_acceleration : ℕ → List (Particle F) → List (Particle F)
  unfolding at_rest gather
  compute_acceleration own particles = elim (get_elem? particles own) [
    | none ↦ particles
    | some p ↦ set particles own (gather own 0 (at_rest p) particles)
  ]

  -- The first loop of a step, over the particles: the rounds left, and `i`.
  unfoldable pub acceleration_loop : ℕ → ℕ → List (Particle F) → List (Particle F)
  unfolding compute_acceleration
  acceleration_loop zero i particles = particles
  acceleration_loop (suc left) i particles =
      acceleration_loop left (i + 1) (compute_acceleration i particles)

  -- One particle of `integrate_particles`: the new velocity moves it.
  unfoldable pub integrate : F → Particle F → Particle F
  integrate dt p =
      let vx = f.add p.vx (f.mul p.ax dt) in
      let vy = f.add p.vy (f.mul p.ay dt) in
      let vz = f.add p.vz (f.mul p.az dt) in
      record p {
        vx = vx;
        vy = vy;
        vz = vz;
        x = f.add p.x (f.mul vx dt);
        y = f.add p.y (f.mul vy dt);
        z = f.add p.z (f.mul vz dt);
      }

  unfoldable pub integrate_particles : F → List (Particle F) → List (Particle F)
  unfolding integrate
  integrate_particles dt [] = []
  integrate_particles dt (p ∷ particles) = integrate dt p ∷ integrate_particles dt particles

  unfoldable pub energy_loop : F → List (Particle F) → F
  energy_loop ke [] = ke
  energy_loop ke (p ∷ particles) =
      let v_sq = f.add (f.add (f.mul p.vx p.vx) (f.mul p.vy p.vy)) (f.mul p.vz p.vz) in
      energy_loop (f.add ke (f.mul (f.mul f.half_f p.mass) v_sq)) particles

  unfoldable pub compute_kinetic_energy : List (Particle F) → F
  unfolding energy_loop
  compute_kinetic_energy particles = energy_loop f.zero_f particles

  -- The steps of the simulation, without the touches of pages, which do not read the particles.
  unfoldable pub simulate : F → ℕ → List (Particle F) → List (Particle F)
  unfolding acceleration_loop integrate_particles
  simulate dt zero particles = particles
  simulate dt (suc steps) particles =
      simulate dt steps (integrate_particles dt (acceleration_loop (length particles) 0 particles))

  -- The particles from `i` on, by the results of the three distributions: all draw from one generator, whose
  -- number of draws so far is the argument.
  unfoldable pub initialize_loop : (ℕ → F) → (ℕ → F) → (ℕ → F) → ℕ → ℕ → List (Particle F)
  initialize_loop pos_dist vel_dist mass_dist zero i = []
  initialize_loop pos_dist vel_dist mass_dist (suc left) i =
      record {
        x = pos_dist (i * 7);
        y = pos_dist (i * 7 + 1);
        z = pos_dist (i * 7 + 2);
        vx = f.mul (vel_dist (i * 7 + 3)) f.tenth_f;
        vy = f.mul (vel_dist (i * 7 + 4)) f.tenth_f;
        vz = f.mul (vel_dist (i * 7 + 5)) f.tenth_f;
        ax = f.zero_f;
        ay = f.zero_f;
        az = f.zero_f;
        mass = mass_dist (i * 7 + 6);
      }
      ∷ initialize_loop pos_dist vel_dist mass_dist left (i + 1)
