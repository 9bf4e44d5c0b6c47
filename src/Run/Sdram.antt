-- ===== src/Run/Sdram.antt =====
-- The longest run for which the SDRAM is enough (spinn_front_end_common/interface/
-- abstract_spinnaker_base.py, `_deduce_data_n_timesteps`). The addition of two SDRAM requirements is
-- the one of the library that defines them, and an argument here.
use spi_nnfront_end_common.Common.{
  ℕ, zero, suc, ◌-◌, ◌/◌, min, Bool, ◌&&◌, List, [], ◌∷◌, Result, ok, err, pacman_place_exception,
  ltb, ◌==◌, if◌then◌else◌,
}

-- `sdram_required`: what a vertex always needs, and what it needs for each time step.
pub record Sdram : Type 0 where
  pub fixed : ℕ
  pub per_timestep : ℕ

pub record Placed : Type 0 where
  pub x : ℕ
  pub y : ℕ
  pub is_virtual : Bool
  pub sdram_required : Sdram

-- An item of `usage_by_chip`.
pub record Usage : Type 0 where
  pub x : ℕ
  pub y : ℕ
  pub sdram : Sdram

-- sys.maxsize
abbrev pub maxsize : ℕ
maxsize = 9223372036854775807

-- Whether the entry is the chip's.
abbrev pub is_on : ℕ → ℕ → Usage → Bool
is_on x y u = (x == u.x) && (y == u.y)

-- `min(max_time_steps, int((size - sdram.fixed) // sdram.per_timestep))`, where there is a need for
-- each time step.
abbrev pub limited : ℕ → ℕ → ℕ → ℕ
limited left zero max_time_steps = max_time_steps
limited left (suc n) max_time_steps = min max_time_steps (left / suc n)

module _ (plus : Sdram → Sdram → Sdram) where
  unfoldable pub add_usage : ℕ → ℕ → Sdram → List Usage → List Usage
  add_usage x y sdram [] = record { x = x; y = y; sdram = sdram } ∷ []
  add_usage x y sdram (u ∷ us) =
      let rest = add_usage x y sdram us in
      if is_on x y u then record u { sdram = plus u.sdram sdram } ∷ us else u ∷ rest

  -- The loop over the placements.
  unfoldable pub usage_by_chip : List Placed → List Usage → List Usage
  usage_by_chip [] usage = usage
  usage_by_chip (place ∷ places) usage =
      usage_by_chip places
        (if place.is_virtual then usage else add_usage place.x place.y place.sdram_required usage)

module _ (size_of_chip : ℕ → ℕ → ℕ) where
  -- The loop over the chips.
  unfoldable pub limit_by_chip : List Usage → ℕ → Result ℕ
  limit_by_chip [] max_time_steps = ok max_time_steps
  limit_by_chip (u ∷ us) max_time_steps =
      let size = size_of_chip u.x u.y in
      let rest =
        limit_by_chip us (limited (size - u.sdram.fixed) u.sdram.per_timestep max_time_steps) in
      if ltb size u.sdram.fixed then err pacman_place_exception else rest

unfoldable pub deduce_data_n_timesteps :
    (Sdram → Sdram → Sdram) → (ℕ → ℕ → ℕ) → List Placed → Result ℕ
deduce_data_n_timesteps plus size_of_chip places =
    limit_by_chip size_of_chip (usage_by_chip plus places []) maxsize
