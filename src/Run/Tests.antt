-- ===== src/Run/Tests.antt =====
-- A run of 250 time steps in segments of 100, and the longest run on a chip.
use spi_nnfront_end_common.Common.Int.{pos}
use spi_nnfront_end_common.Common.{
  ℕ, ◌+◌, ◌<◌, ◌⊎◌, Bool, true, false, err, pacman_place_exception, ◌≡◌, refl, none, some, List, [],
  ◌∷◌, map, ok, arith,
}
use spi_nnfront_end_common.Run.Sdram.{
  Sdram, Placed, add_usage, usage_by_chip, limit_by_chip, deduce_data_n_timesteps,
}
use spi_nnfront_end_common.Run.Longest.{Longest, need, deduce_data_n_timesteps-Longest}
use spi_nnfront_end_common.Run.Within.{Within, work_out_steps-Within}
use spi_nnfront_end_common.Run.Steps.{
  set_max_run_time_steps, work_out_steps, RunData, generate_steps, get_max_run_time_steps, segments,
  run_steps,
}
use spi_nnfront_end_common.Run.Total.{Divides, generate_steps-Divides, run_steps-total}

abbrev started : RunData
started = record {
  current_run_timesteps = some 50;
  first_machine_time_step = 0;
  max_run_time_steps = some 100;
  run_step = none;
}

abbrev steps : List ℕ
steps = 100 ∷ 100 ∷ 50 ∷ []

steps_generated : generate_steps (some 250) started ≡ ok steps
unfolding generate_steps get_max_run_time_steps segments
steps_generated = refl

generate_steps-Divides_example :
    (steps : List ℕ) × (generate_steps (some 250) started ≡ ok steps) × Divides 250 100 steps
generate_steps-Divides_example = generate_steps-Divides 250 99 started (omega arith) refl

run_steps-total_example :
    (d' : RunData) × (run_steps (map some steps) started ≡ ok d')
    × (d'.current_run_timesteps ≡ some 300)
    × (d'.run_step ≡ none)
run_steps-total_example =
    run_steps-total 250 99 50 started steps (omega arith) refl refl steps_generated

-- Two vertices on one chip and a virtual one.
abbrev placed : ℕ → ℕ → Bool → ℕ → ℕ → Placed
placed x y is_virtual fixed per_timestep = record {
  x = x;
  y = y;
  is_virtual = is_virtual;
  sdram_required = record { fixed = fixed; per_timestep = per_timestep };
}

abbrev places : List Placed
places = placed 0 1 false 100 8 ∷ placed 0 0 true 5000 1 ∷ placed 0 1 false 200 2 ∷ []

abbrev both : Sdram → Sdram → Sdram
both a b = record { fixed = a.fixed + b.fixed; per_timestep = a.per_timestep + b.per_timestep }

deduce_data_n_timesteps-Longest_example :
    ((deduce_data_n_timesteps both (λ x y. 1000) places ≡ err pacman_place_exception)
      × ((x : ℕ) × (y : ℕ) × (1000 < need 0 places x y)))
    ⊎ ((m : ℕ) × (deduce_data_n_timesteps both (λ x y. 1000) places ≡ ok m)
        × Longest (λ x y. 1000) places m)
deduce_data_n_timesteps-Longest_example =
    deduce_data_n_timesteps-Longest (λ x y. 1000) both (λ a b. refl) (λ a b. refl) places

timesteps_deduced : deduce_data_n_timesteps both (λ x y. 1000) places ≡ ok 70
unfolding deduce_data_n_timesteps limit_by_chip usage_by_chip add_usage
timesteps_deduced = refl

work_out_steps-Within_example :
    (d' : RunData) × (set_max_run_time_steps (pos 70) started ≡ ok d')
    × (steps : List ℕ) × (work_out_steps true true true (some 250) d' ≡ ok (some (map some steps)))
    × Within (λ x y. 1000) places 250 steps
work_out_steps-Within_example =
    work_out_steps-Within (λ x y. 1000) both (λ a b. refl) (λ a b. refl) places 250 69 started
      (omega arith) timesteps_deduced
