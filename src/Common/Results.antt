-- ===== src/Common/Results.antt =====
-- Calls that may raise. The constructors of `Error` are the exception classes of the source.
use mathlib.Core.Path.{◌≡◌, refl}
use mathlib.Core.Logic.{◌⊎◌, inl, inr}
use mathlib.Core.Bool.{Bool, true, false}

pub data Error : Type 0 where
  value_error struct_error index_error key_error type_error assertion_error : Error
  not_implemented_error spinn_front_end_exception data_spec_exception : Error
  ds_database_exception integrity_error data_not_yet_available zero_division_error : Error
  configuration_exception bufferable_region_too_small pacman_place_exception : Error
  minimisation_failed_error pacman_element_allocation_exception : Error
  pacman_algorithm_failed_to_generate_outputs_exception pacman_routing_exception : Error

-- `ok value` is a return, `err e` an exception that is raised.
pub data Result {ℓ} (V : Type ℓ) : Type ℓ where
  err : Error → Result V
  ok : V → Result V

-- `if test: raise e`
abbrev pub raise_if : Bool → Error → Result (Unit {0})
raise_if false e = ok tt
raise_if true e = err e

-- An exception passes through what follows it.
infixl 5 ◌>>=◌
abbrev pub ◌>>=◌ {ℓ κ} : {V : Type ℓ} {W : Type κ} → Result V → (V → Result W) → Result W
err e >>= next = err e
ok v >>= next = next v

infixl 5 ◌>>◌
abbrev pub ◌>>◌ {ℓ} : {W : Type ℓ} → Result (Unit {0}) → Result W → Result W
first >> next = first >>= λ _. next

pub Result-cases {ℓ} :
    {A : Type ℓ} (r : Result A) → ((a : A) × (r ≡ ok a)) ⊎ ((e : Error) × (r ≡ err e))
Result-cases (ok a) = inl (a, refl)
Result-cases (err e) = inr (e, refl)
