-- ===== src/Common/Maps.antt =====
-- A Python `dict` with numbers as keys, as a list of its items.
use Prim.Native.Nat.{ℕ}
use mathlib.Core.Path.{◌≡◌, refl, ◌∙◌}
use mathlib.Core.Bool.{false}
use mathlib.Core.Option.{Option, none, some}
use mathlib.Core.List.{List, [], ◌∷◌}
use native.Mathlib.Omega.{arith}
use spi_nnfront_end_common.Common.Tests.{◌==◌, ==_refl, if◌then◌else◌}

module _ {V : Type 0} where
  -- `d.get(key)`
  unfoldable pub lookup : ℕ → List (ℕ × V) → Option V
  lookup key [] = none
  lookup key (item ∷ d) = if key == item.0 then some item.1 else lookup key d

  -- `d[key] = value`
  unfoldable pub assign : ℕ → V → List (ℕ × V) → List (ℕ × V)
  assign key value [] = (key, value) ∷ []
  assign key value (item ∷ d) =
      if key == item.0 then (key, value) ∷ d else item ∷ assign key value d

  -- `del d[key]`
  unfoldable pub remove : ℕ → List (ℕ × V) → List (ℕ × V)
  remove key [] = []
  remove key (item ∷ d) = let rest = remove key d in if key == item.0 then rest else item ∷ rest

  pub lookup-assign :
      (k key : ℕ) (value : V) (d : List (ℕ × V))
      → lookup k (assign key value d) ≡ (if k == key then some value else lookup k d)
  unfolding lookup assign
  lookup-assign k key value [] = refl
  lookup-assign k key value (item ∷ d) = ground (arith, lookup-assign k key value d)

  pub lookup-assign_same :
      (key : ℕ) (value : V) (d : List (ℕ × V)) → lookup key (assign key value d) ≡ some value
  lookup-assign_same key value d = lookup-assign key key value d ∙ rw (==_refl key) refl

  pub lookup-assign_other :
      (k key : ℕ) (value : V) (d : List (ℕ × V))
      → (k == key) ≡ false
      → lookup k (assign key value d) ≡ lookup k d
  lookup-assign_other k key value d other = lookup-assign k key value d ∙ rw other refl

  pub lookup-remove :
      (k key : ℕ) (d : List (ℕ × V))
      → lookup k (remove key d) ≡ (if k == key then none else lookup k d)
  unfolding lookup remove
  lookup-remove k key [] = ground arith
  lookup-remove k key (item ∷ d) = ground (arith, lookup-remove k key d)
