-- ===== src/Run/Totals.antt =====
-- The SDRAM that the vertices of a chip need together.
use spi_nnfront_end_common.Common.{
  ℕ, ◌+◌, ◌≡◌, refl, inl, inr, false, ◌&&◌, List, [], ◌∷◌, ◌==◌, Bool-cases, if◌then◌else◌, All,
  arith,
}
use spi_nnfront_end_common.Run.Sdram.{Sdram, Placed, Usage, is_on, add_usage, usage_by_chip}

abbrev pub total_on : (Sdram → ℕ) → ℕ → ℕ → List Placed → ℕ
total_on f x y [] = 0
total_on f x y (place ∷ places) =
    (if place.is_virtual
      then 0
      else if (x == place.x) && (y == place.y)
      then f place.sdram_required
      else 0)
    + total_on f x y places

abbrev total_in : (Sdram → ℕ) → ℕ → ℕ → List Usage → ℕ
total_in f x y [] = 0
total_in f x y (u ∷ us) = (if is_on x y u then f u.sdram else 0) + total_in f x y us

abbrev pub fixed_in : ℕ → ℕ → List Usage → ℕ
fixed_in x y us = total_in (λ s. s.fixed) x y us

abbrev pub per_in : ℕ → ℕ → List Usage → ℕ
per_in x y us = total_in (λ s. s.per_timestep) x y us

module _ (plus : Sdram → Sdram → Sdram) (f : Sdram → ℕ)
    (additive : (a b : Sdram) → f (plus a b) ≡ f a + f b) where
  total_in-add_usage :
      (x y x' y' : ℕ) (s : Sdram) (us : List Usage)
      → total_in f x y (add_usage plus x' y' s us)
        ≡ (if (x == x') && (y == y') then f s else 0) + total_in f x y us
  unfolding add_usage
  total_in-add_usage x y x' y' s [] = refl
  total_in-add_usage x y x' y' s (u ∷ us) =
      ground (arith, additive u.sdram s, total_in-add_usage x y x' y' s us)

  pub total_in-usage_by_chip :
      (x y : ℕ) (places : List Placed) (us : List Usage)
      → total_in f x y (usage_by_chip plus places us) ≡ total_on f x y places + total_in f x y us
  unfolding usage_by_chip
  total_in-usage_by_chip x y [] us = omega arith
  total_in-usage_by_chip x y (place ∷ places) us = elim (Bool-cases place.is_virtual) [
    | inl v ↦ rw v (omega (arith, total_in-usage_by_chip x y places us))
    | inr r ↦ rw r (
        omega (
          arith,
          total_in-usage_by_chip x y places
              (add_usage plus place.x place.y place.sdram_required us),
          total_in-add_usage x y place.x place.y place.sdram_required us,
        ))
  ]

-- No other entry is for this chip.
abbrev pub NotIn : ℕ → ℕ → List Usage → Type 0
NotIn x y us = All (λ v. is_on x y v ≡ false) us

abbrev pub IsUnique : List Usage → Type 0
IsUnique [] = Unit {0}
IsUnique (u ∷ us) = NotIn u.x u.y us × IsUnique us

pub total_in-NotIn :
    (f : Sdram → ℕ) (x y : ℕ) (us : List Usage) → NotIn x y us → total_in f x y us ≡ 0
total_in-NotIn f x y [] h = refl
total_in-NotIn f x y (u ∷ us) h = rw h.0 (omega (arith, total_in-NotIn f x y us h.1))

module _ (plus : Sdram → Sdram → Sdram) where
  add_usage-NotIn :
      (a b x y : ℕ) (s : Sdram) (us : List Usage)
      → ((a == x) && (b == y)) ≡ false
      → NotIn a b us
      → NotIn a b (add_usage plus x y s us)
  unfolding add_usage
  add_usage-NotIn a b x y s [] other h = (other, tt)
  add_usage-NotIn a b x y s (u ∷ us) other h = elim (Bool-cases (is_on x y u)) [
    | inl e ↦ rw e h
    | inr e ↦ rw e (h.0, add_usage-NotIn a b x y s us other h.1)
  ]

  add_usage-IsUnique :
      (x y : ℕ) (s : Sdram) (us : List Usage) → IsUnique us → IsUnique (add_usage plus x y s us)
  unfolding add_usage
  add_usage-IsUnique x y s [] h = (tt, tt)
  add_usage-IsUnique x y s (u ∷ us) h = elim (Bool-cases (is_on x y u)) [
    | inl e ↦ rw e h
    | inr e ↦
        rw e (add_usage-NotIn u.x u.y x y s us (ground arith) h.0, add_usage-IsUnique x y s us h.1)
  ]

  pub usage_by_chip-IsUnique :
      (places : List Placed) (us : List Usage)
      → IsUnique us
      → IsUnique (usage_by_chip plus places us)
  unfolding usage_by_chip
  usage_by_chip-IsUnique [] us h = h
  usage_by_chip-IsUnique (place ∷ places) us h = elim (Bool-cases place.is_virtual) [
    | inl e ↦ rw e (usage_by_chip-IsUnique places us h)
    | inr e ↦ rw e (
        usage_by_chip-IsUnique places _
          (add_usage-IsUnique place.x place.y place.sdram_required us h))
  ]
