-- ===== src/Run/Within.antt =====
-- The steps of a run, up to the longest that is deduced, are within the SDRAM of every chip
-- (spinn_front_end_common/interface/abstract_spinnaker_base.py).
use spi_nnfront_end_common.Common.{
  times_le, ℕ, suc, ◌+◌, ◌≤◌, ◌<◌, ◌≡◌, refl, inl, inr, true, some, List, [], ◌∷◌, map, ok, err,
  pacman_place_exception, sym, ◌∙◌, All, arith,
}
use spi_nnfront_end_common.Common.Int.{pos}
use spi_nnfront_end_common.Run.Sdram.{Sdram, Placed, deduce_data_n_timesteps}
use spi_nnfront_end_common.Run.Longest.{need, deduce_data_n_timesteps-Longest}
use spi_nnfront_end_common.Run.Steps.{RunData, set_max_run_time_steps, work_out_steps}
use spi_nnfront_end_common.Run.Total.{total, generate_steps-Divides}

-- The time steps fit on every chip.
abbrev pub FitsOn : (ℕ → ℕ → ℕ) → List Placed → ℕ → Type 0
FitsOn size_of_chip places s = (x y : ℕ) → need s places x y ≤ size_of_chip x y

-- What the division and the limit say of the steps.
pub record Within (size_of_chip : ℕ → ℕ → ℕ) (places : List Placed) (n : ℕ) (steps : List ℕ)
    : Type 0 where
  pub adds_up : total steps ≡ n
  pub each_fits : All (FitsOn size_of_chip places) steps

need_le :
    (size_of_chip : ℕ → ℕ → ℕ) (places : List Placed) (s m : ℕ)
    → s ≤ m
    → FitsOn size_of_chip places m
    → FitsOn size_of_chip places s
need_le size_of_chip places s m h fits x y = omega (arith, fits x y, times_le s m _ h)

steps_fit :
    (size_of_chip : ℕ → ℕ → ℕ) (places : List Placed) (m : ℕ) (steps : List ℕ)
    → FitsOn size_of_chip places m
    → All (λ s. (0 < s) × (s ≤ m)) steps
    → All (FitsOn size_of_chip places) steps
steps_fit size_of_chip places m [] fits h = tt
steps_fit size_of_chip places m (s ∷ steps) fits h =
    (need_le size_of_chip places s m h.0.1 fits, steps_fit size_of_chip places m steps fits h.1)

returned_same : {m m' : ℕ} → ok m' ≡ ok m → m' ≡ m
returned_same e = cc

err_not_ok : {m : ℕ} → ¬ (err pacman_place_exception ≡ ok m)
err_not_ok e = cc

-- What a deduction that returned says.
deduced-Longest :
    (size_of_chip : ℕ → ℕ → ℕ) (plus : Sdram → Sdram → Sdram)
    → ((a b : Sdram) → (plus a b).fixed ≡ a.fixed + b.fixed)
    → ((a b : Sdram) → (plus a b).per_timestep ≡ a.per_timestep + b.per_timestep)
    → (places : List Placed) (m : ℕ) → deduce_data_n_timesteps plus size_of_chip places ≡ ok m
    → FitsOn size_of_chip places m
deduced-Longest size_of_chip plus plus_fixed plus_per_timestep places m e =
    elim (deduce_data_n_timesteps-Longest size_of_chip plus plus_fixed plus_per_timestep places) [
      | inl (failed, over) ↦ absurd (err_not_ok (sym failed ∙ e))
      | inr (m', returned, longest) ↦ rw (sym (returned_same (sym returned ∙ e))) longest.enough
    ]

-- With auto pause and resume, where some vertex needs SDRAM for each time step, a run of at least one
-- time step is divided in steps that add up to it and of which each is within the SDRAM of every chip,
-- when the longest step is the number that was deduced from the placements and is not 0, and the
-- parts of two requirements add up.
pub work_out_steps-Within :
    (size_of_chip : ℕ → ℕ → ℕ) (plus : Sdram → Sdram → Sdram)
    → ((a b : Sdram) → (plus a b).fixed ≡ a.fixed + b.fixed)
    → ((a b : Sdram) → (plus a b).per_timestep ≡ a.per_timestep + b.per_timestep)
    → (places : List Placed) (n m : ℕ) (d : RunData) → 0 < n
    → deduce_data_n_timesteps plus size_of_chip places ≡ ok (suc m)
    → (d' : RunData) × (set_max_run_time_steps (pos (suc m)) d ≡ ok d')
      × (steps : List ℕ) × (work_out_steps true true true (some n) d' ≡ ok (some (map some steps)))
      × Within size_of_chip places n steps
unfolding set_max_run_time_steps work_out_steps
work_out_steps-Within size_of_chip plus plus_fixed plus_per_timestep places n m d some_step e =
    let d' = record d { max_run_time_steps = some (suc m) } in
    let (steps, generated, divides) = generate_steps-Divides n m d' some_step refl in
    let fits = deduced-Longest size_of_chip plus plus_fixed plus_per_timestep places (suc m) e in
    (
      d',
      refl,
      steps,
      rw generated refl,
      record {
        adds_up = divides.adds_up;
        each_fits = steps_fit size_of_chip places (suc m) steps fits divides.each;
      },
    )
