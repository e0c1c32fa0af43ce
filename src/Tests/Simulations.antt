-- ===== src/Tests/Simulations.antt =====
-- A frame of three by three pixels, and two particles with numbers for `float`.
use Prim.Native.Nat.{◌*◌, ◌+◌, ◌-◌, ◌/◌}
use gpu_vmm.Prelude.{ℕ, ◌<◌, ◌≡◌, some, [], ◌∷◌, List, arith, length, get_elem?, Returns, ok}
use gpu_vmm.Video.{Frame, color_space_convert, apply_filter, process_frame}
use gpu_vmm.Video.Convert.{Fits, gray_pixels, color_space_convert_lem}
use gpu_vmm.Video.Smooths.{Within, OnBorder}
use gpu_vmm.Video.Filter.{apply_filter_lem}
use gpu_vmm.Video.Process.{WithinFrame, process_frame-WithinFrame}
use gpu_vmm.Video.Batches.{Event, batch_loop, processed, frames_from, Prepared, batch_loop-frames}
use gpu_vmm.Particles.{Floats, Particle, simulate, acceleration_loop, compute_kinetic_energy}
use gpu_vmm.Particles.Step.{simulate_at_once, simulate_lem}

-- The buffer has a byte behind the frame.
abbrev frame : Frame
frame = record {
  width = 3;
  height = 3;
  bytes =
      10 ∷ 20 ∷ 30 ∷ 40 ∷ 50 ∷ 60 ∷ 70 ∷ 80 ∷ 90 ∷ 11 ∷ 21 ∷ 31 ∷ 41 ∷ 51 ∷ 61 ∷ 71 ∷ 81 ∷ 91 ∷ 12
      ∷ 22 ∷ 32 ∷ 42 ∷ 52 ∷ 62 ∷ 72 ∷ 82 ∷ 92 ∷ 77 ∷ [];
}

frame_fits : Fits frame
frame_fits = record { small = omega arith; held = omega arith }

color_space_convert_lem_example : Returns (color_space_convert frame) λ gray.
    (gray ≡ record frame { bytes = gray_pixels 9 frame.bytes })
    × (color_space_convert gray ≡ ok gray)
color_space_convert_lem_example = color_space_convert_lem frame frame_fits

apply_filter_lem_example : Returns (apply_filter frame) λ after.
    (after.width ≡ 3)
    × (after.height ≡ 3)
    × (length after.bytes ≡ 28)
    × ((j : ℕ) → OnBorder 3 3 j → get_elem? after.bytes j ≡ get_elem? frame.bytes j)
    × ((low high : ℕ) → high < 256 → Within low high frame.bytes → Within low high after.bytes)
apply_filter_lem_example = apply_filter_lem frame frame_fits (omega arith) (omega arith)

process_frame-WithinFrame_example : Returns (process_frame frame) (WithinFrame frame)
process_frame-WithinFrame_example =
    process_frame-WithinFrame frame frame_fits (omega arith) (omega arith)

abbrev whole_numbers : Floats ℕ
whole_numbers = record {
  add = λ a b. a + b;
  sub = λ a b. a - b;
  mul = λ a b. a * b;
  div = λ a b. a / b;
  sqrt = λ a. a;
  zero_f = 0;
  half_f = 1;
  one_f = 1;
  tenth_f = 1;
}

abbrev particle_at : ℕ → Particle ℕ
particle_at x = record {
  x = x;
  y = 2;
  z = 3;
  vx = 1;
  vy = 0;
  vz = 1;
  ax = 9;
  ay = 9;
  az = 9;
  mass = 5;
}

abbrev two_particles : List (Particle ℕ)
two_particles = particle_at 4 ∷ particle_at 7 ∷ []

simulate_lem_example :
    (simulate whole_numbers 2 10 two_particles ≡ simulate_at_once whole_numbers 2 10 two_particles)
    × (compute_kinetic_energy whole_numbers (acceleration_loop whole_numbers 2 0 two_particles)
        ≡ compute_kinetic_energy whole_numbers two_particles)
simulate_lem_example = simulate_lem whole_numbers 2 10 two_particles

batch_loop-frames_example :
    (events : List Event) × (batch_loop 10 4 11 0 ≡ some events)
    × (processed events ≡ frames_from 0 10)
    × Prepared 0 events
batch_loop-frames_example = batch_loop-frames 10 4 (omega arith) (omega arith)
