-- ===== src/Run/Longest.antt =====
-- The deduced number of time steps is the largest for which each chip's SDRAM is enough.
use native.Mathlib.Nat.{div-add-mod, mod-lt}
use native.Mathlib.Decide.{dec_le}
use spi_nnfront_end_common.Common.{
  times_le, ℕ, zero, suc, ◌+◌, ◌-◌, ◌*◌, ◌/◌, ◌%◌, min, ◌≤◌, ◌<◌, ◌≡◌, refl, sym, ◌∙◌, ◌⊎◌, inl,
  inr, true, List, [], ◌∷◌, ok, err, pacman_place_exception, ltb, ==_refl, Bool-cases, arith,
}
use spi_nnfront_end_common.Run.Sdram.{
  Sdram, Placed, Usage, maxsize, is_on, limited, usage_by_chip, limit_by_chip,
  deduce_data_n_timesteps,
}
use spi_nnfront_end_common.Run.Totals.{
  total_on, fixed_in, per_in, total_in-usage_by_chip, NotIn, IsUnique, total_in-NotIn,
  usage_by_chip-IsUnique,
}

-- The sum of what the vertices on a chip need, the virtual ones apart.
-- What a division says of the time steps that a chip allows.
limited-bounds :
    (left per max : ℕ)
    → (limited left per max ≤ max)
      × (limited left per max * per ≤ left)
      × ((limited left per max ≡ max) ⊎ (left < suc (limited left per max) * per))
limited-bounds left zero max = (omega arith, omega arith, inl refl)
limited-bounds left (suc n) max =
    let whole = div-add-mod left (suc n) in
    let small : left % suc n < suc n = mod-lt left (omega arith) in
    elim (dec_le max (left / suc n)) [
      | yes p ↦
          let same : min max (left / suc n) ≡ max = omega arith in
          (omega arith, grind arith, inl same)
      | no p ↦
          let same : min max (left / suc n) ≡ left / suc n = omega arith in
          rw same (omega arith, grind arith, inr (grind arith))
    ]

short_enough :
    (size fixed per m n : ℕ)
    → fixed ≤ size
    → m ≤ n
    → n * per ≤ size - fixed
    → fixed + m * per ≤ size
short_enough size fixed per m n enough below room = omega (arith, times_le m n per below)

too_long :
    (size fixed per m n : ℕ) → m ≡ n → size - fixed < suc n * per → size < fixed + suc m * per
too_long size fixed per m n same over = rw same (omega arith)

is_on-same : (x y : ℕ) (u : Usage) → is_on x y u ≡ true → (x ≡ u.x) × (y ≡ u.y)
is_on-same x y u h = (ground arith, ground arith)

module _ (size_of_chip : ℕ → ℕ → ℕ) where
  -- A chip whose SDRAM is not enough for `m` time steps.
  abbrev TooMuch : ℕ → List Usage → Type 0
  TooMuch m us = (x : ℕ) × (y : ℕ) × (size_of_chip x y < fixed_in x y us + m * per_in x y us)

  TooMuch-head :
      (m : ℕ) (u : Usage) (us : List Usage)
      → size_of_chip u.x u.y < u.sdram.fixed + m * u.sdram.per_timestep
      → TooMuch m (u ∷ us)
  TooMuch-head m u us h = (u.x, u.y, rw (==_refl u.x, ==_refl u.y) (grind arith))

  TooMuch-tail : (m : ℕ) (u : Usage) (us : List Usage) → TooMuch m us → TooMuch m (u ∷ us)
  TooMuch-tail m u us (x, y, h) = (
    x,
    y,
    elim (Bool-cases (is_on x y u)) [ inl e ↦ rw e (grind arith) | inr e ↦ rw e (grind arith) ],
  )

  -- A limit that every chip's SDRAM allows, and one more time step would be too much for a chip.
  abbrev Limit : List Usage → ℕ → ℕ → Type 0
  Limit us max m =
      (m ≤ max)
      × ((x y : ℕ) → fixed_in x y us + m * per_in x y us ≤ size_of_chip x y)
      × ((m ≡ max) ⊎ TooMuch (suc m) us)

  abbrev Limited : List Usage → ℕ → Type 0
  Limited us max =
      ((limit_by_chip size_of_chip us max ≡ err pacman_place_exception) × TooMuch 0 us)
      ⊎ ((m : ℕ) × (limit_by_chip size_of_chip us max ≡ ok m) × Limit us max m)

  Limit-cons :
      (u : Usage) (us : List Usage) (max m : ℕ)
      → NotIn u.x u.y us
      → u.sdram.fixed ≤ size_of_chip u.x u.y
      → Limit us (limited (size_of_chip u.x u.y - u.sdram.fixed) u.sdram.per_timestep max) m
      → Limit (u ∷ us) max m
  Limit-cons u us max m alone enough (below, fits, largest) =
      let size = size_of_chip u.x u.y in
      let (le, room, last) = limited-bounds (size - u.sdram.fixed) u.sdram.per_timestep max in
      (
        omega arith,
        λ x y. elim (Bool-cases (is_on x y u)) [
          | inl here ↦ rw here (
              on_chip x y here (
                short_enough (size_of_chip u.x u.y) u.sdram.fixed u.sdram.per_timestep m
                  (limited (size_of_chip u.x u.y - u.sdram.fixed) u.sdram.per_timestep max) enough
                  below room))
          | inr other ↦ rw other (grind (arith, fits x y))
        ],
        elim largest [
          | inr more ↦ inr (TooMuch-tail (suc m) u us more)
          | inl same ↦ elim last [
            | inl unlimited ↦ inl (same ∙ unlimited)
            | inr over ↦ inr (
                TooMuch-head (suc m) u us (
                  too_long size u.sdram.fixed u.sdram.per_timestep m
                    (limited (size - u.sdram.fixed) u.sdram.per_timestep max) same over))
          ]
        ],
      )
    where
      on_chip :
          (x y : ℕ)
          → is_on x y u ≡ true
          → u.sdram.fixed + m * u.sdram.per_timestep ≤ size_of_chip u.x u.y
          → (u.sdram.fixed + fixed_in x y us) + m * (u.sdram.per_timestep + per_in x y us)
            ≤ size_of_chip x y
      on_chip x y here h =
          let both = is_on-same x y u here in
          rw
            (
              both.0,
              both.1,
              total_in-NotIn (λ s. s.fixed) u.x u.y us alone,
              total_in-NotIn (λ s. s.per_timestep) u.x u.y us alone,
            )
            (grind (arith, h))

  limit_by_chip-Limited : (us : List Usage) (max : ℕ) → IsUnique us → Limited us max
  unfolding limit_by_chip
  limit_by_chip-Limited [] max h = inr (max, refl, (omega arith, λ x y. omega arith, inl refl))
  limit_by_chip-Limited (u ∷ us) max h =
      elim (Bool-cases (ltb (size_of_chip u.x u.y) u.sdram.fixed)) [
        | inl over ↦ rw over (inl (refl, TooMuch-head 0 u us (ground arith)))
        | inr enough ↦
            rw enough
              (elim (limit_by_chip-Limited us
                (limited (size_of_chip u.x u.y - u.sdram.fixed) u.sdram.per_timestep max) h.1) [
                  | inl failed ↦ inl (failed.0, TooMuch-tail 0 u us failed.1)
                  | inr (m, e, l) ↦ inr (m, e, Limit-cons u us max m h.0 (ground arith) l)
                ])
      ]

-- What the vertices on a chip need for `m` time steps.
abbrev pub need : ℕ → List Placed → ℕ → ℕ → ℕ
need m places x y =
    total_on (λ s. s.fixed) x y places + m * total_on (λ s. s.per_timestep) x y places

-- The chips' SDRAM is enough for `m` time steps, and for no more.
pub record Longest (size_of_chip : ℕ → ℕ → ℕ) (places : List Placed) (m : ℕ) : Type 0 where
  pub enough : (x y : ℕ) → need m places x y ≤ size_of_chip x y
  pub bounded : m ≤ maxsize
  pub largest : (m ≡ maxsize) ⊎ ((x : ℕ) × (y : ℕ) × (size_of_chip x y < need (suc m) places x y))

module _ (size_of_chip : ℕ → ℕ → ℕ) (plus : Sdram → Sdram → Sdram)
    (plus-fixed : (a b : Sdram) → (plus a b).fixed ≡ a.fixed + b.fixed)
    (plus-per_timestep : (a b : Sdram) → (plus a b).per_timestep ≡ a.per_timestep + b.per_timestep)
    (places : List Placed) where
  needed :
      (m x y : ℕ)
      → fixed_in x y (usage_by_chip plus places []) + m * per_in x y (usage_by_chip plus places [])
        ≡ need m places x y
  needed m x y =
      rw
        (
          total_in-usage_by_chip plus (λ s. s.fixed) plus-fixed x y places [],
          total_in-usage_by_chip plus (λ s. s.per_timestep) plus-per_timestep x y places [],
        )
        (grind arith)

  -- When the deduction fails, a chip's SDRAM is not enough for what its vertices need before the
  -- first time step; otherwise it returns the longest run, up to sys.maxsize, for which each chip's
  -- SDRAM is enough, where the parts of two requirements add up.
  pub deduce_data_n_timesteps-Longest :
      ((deduce_data_n_timesteps plus size_of_chip places ≡ err pacman_place_exception)
        × ((x : ℕ) × (y : ℕ) × (size_of_chip x y < need 0 places x y)))
      ⊎ ((m : ℕ) × (deduce_data_n_timesteps plus size_of_chip places ≡ ok m)
          × Longest size_of_chip places m)
  unfolding deduce_data_n_timesteps
  deduce_data_n_timesteps-Longest =
      elim (limit_by_chip-Limited size_of_chip (usage_by_chip plus places []) maxsize
        (usage_by_chip-IsUnique plus places [] tt)) [
          | inl (failed, (x, y, h)) ↦ inl (failed, (x, y, rw (sym (needed 0 x y)) h))
          | inr (m, e, (below, fits, largest)) ↦ inr (
            m,
            e,
            record {
              enough = λ x y. rw (sym (needed m x y)) (fits x y);
              bounded = below;
              largest = elim largest [
                | inl same ↦ inl same
                | inr (x, y, h) ↦ inr (x, y, rw (sym (needed (suc m) x y)) h)
              ];
            },
          )
        ]
