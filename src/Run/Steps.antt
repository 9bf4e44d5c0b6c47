-- ===== src/Run/Steps.antt =====
-- Which steps a run is divided in, and how they are counted (spinn_front_end_common/interface/
-- abstract_spinnaker_base.py and spinn_front_end_common/data/fec_data_writer.py). The quotient that
-- `_generate_steps` takes by a floating-point division is exact for fewer than 2^53 steps.
use spi_nnfront_end_common.Common.{
  ℕ, zero, suc, ◌+◌, ◌-◌, ◌*◌, ◌/◌, Bool, true, false, not, ◌||◌, Option, none, some, List, [], ◌∷◌,
  ◌++◌, map, Result, ok, err, configuration_exception, not_implemented_error,
  data_not_yet_available, zero_division_error, ltb, ◌==◌, if◌then◌else◌, replicate, raise_if, ◌>>=◌,
  ◌>>◌,
}
use spi_nnfront_end_common.Common.Int.{ℤ, pos, negsuc}

-- The counters in the data model. `None` for `current_run_timesteps` is a run forever.
pub record RunData : Type 0 where
  pub current_run_timesteps : Option ℕ
  pub first_machine_time_step : ℕ
  pub max_run_time_steps : Option ℕ
  pub run_step : Option ℕ

-- The part of `increment_current_run_timesteps` for a number.
abbrev pub add_timesteps : ℕ → RunData → Option ℕ → Result RunData
add_timesteps increment d none = err not_implemented_error
add_timesteps increment d (some current) = ok (record d {
  first_machine_time_step = current;
  current_run_timesteps = some (current + increment);
})

-- `self.__fec_data._current_run_timesteps != 0`
abbrev pub is_zero : Option ℕ → Bool
is_zero none = false
is_zero (some n) = n == 0

unfoldable pub increment_current_run_timesteps : Option ℤ → RunData → Result RunData
increment_current_run_timesteps none d = do
  raise_if (not (is_zero d.current_run_timesteps)) not_implemented_error
  ok (record d { current_run_timesteps = none })
increment_current_run_timesteps (some (negsuc n)) d = err configuration_exception
increment_current_run_timesteps (some (pos n)) d = add_timesteps n d d.current_run_timesteps

unfoldable pub set_max_run_time_steps : ℤ → RunData → Result RunData
set_max_run_time_steps (pos (suc n)) d = ok (record d { max_run_time_steps = some (suc n) })
set_max_run_time_steps _ d = err configuration_exception

unfoldable pub get_max_run_time_steps : RunData → Result ℕ
get_max_run_time_steps d = elim d.max_run_time_steps [
  | none ↦ err data_not_yet_available
  | some n ↦ ok n
]

-- "Run steps start at 1"
abbrev pub step_after : Option ℕ → ℕ
step_after none = 1
step_after (some n) = n + 1

unfoldable pub next_run_step : RunData → RunData
next_run_step d = record d { run_step = some (step_after d.run_step) }

unfoldable pub clear_run_steps : RunData → RunData
clear_run_steps d = record d { run_step = none }

-- `[int(n_steps_per_segment)] * n_full_iterations` and what is left over, for fewer than 2^53 steps: the
-- source takes the floor of a floating-point quotient, which is exact below that.
unfoldable pub segments : ℕ → ℕ → Result (List ℕ)
segments n_steps zero = err zero_division_error
segments n_steps (suc m) =
    let n_full_iterations = n_steps / suc m in
    let left_over_steps = n_steps - n_full_iterations * suc m in
    let steps = replicate n_full_iterations (suc m) in
    ok (if left_over_steps == 0 then steps else steps ++ left_over_steps ∷ [])

abbrev pub steps_or_zero : RunData → Option ℕ → Result (List ℕ)
steps_or_zero d none = ok (0 ∷ [])
steps_or_zero d (some zero) = ok (0 ∷ [])
steps_or_zero d (some (suc n)) = do m ← get_max_run_time_steps d; segments (suc n) m

unfoldable pub generate_steps : Option ℕ → RunData → Result (List ℕ)
generate_steps n_steps d = steps_or_zero d n_steps

-- `n_machine_time_steps is None or max_run_time_steps < n_machine_time_steps`
abbrev pub exceeds : ℕ → Option ℕ → Bool
exceeds max none = true
exceeds max (some n) = ltb max n

-- "Work out an array of timesteps to perform": `none` where the run has no end.
unfoldable pub work_out_steps :
    Bool → Bool → Bool → Option ℕ → RunData → Result (Option (List (Option ℕ)))
work_out_steps auto_pause per_timestep_sdram has_run_time n_steps d =
    if not auto_pause || not per_timestep_sdram
    then (if per_timestep_sdram
        then (do
          max ← get_max_run_time_steps d
          raise_if (exceeds max n_steps) configuration_exception
          ok (some (n_steps ∷ [])))
        else ok (some (n_steps ∷ [])))
    else if has_run_time
    then (do steps ← generate_steps n_steps d; ok (some (map some steps)))
    else ok none

abbrev pub as_increment : Option ℕ → Option ℤ
as_increment none = none
as_increment (some n) = some (pos n)

-- The loop over the steps; of `_do_run` the counting.
unfoldable pub run_each : List (Option ℕ) → RunData → Result RunData
run_each [] d = ok d
run_each (step ∷ steps) d = do
  d' ← increment_current_run_timesteps (as_increment step) (next_run_step d)
  run_each steps d'

unfoldable pub run_steps : List (Option ℕ) → RunData → Result RunData
run_steps steps d = do d' ← run_each steps d; ok (clear_run_steps d')
