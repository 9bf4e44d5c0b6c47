-- ===== src/Monitor/Timeouts.antt =====
-- The timeouts that are set are the ones that are reported.
use Prim.Native.Nat.{bit_or}
use spi_nnfront_end_common.Common.Bounded.{all_below, all_below-at}
use spi_nnfront_end_common.Common.{
  ℕ, ◌+◌, ◌-◌, ◌*◌, ◌%◌, ◌^◌, ◌<◌, ◌≡◌, refl, Bool, true, false, ◌&&◌, [], ◌∷◌, leb, ◌==◌, ==_iff,
  if◌then◌else◌,
}
use spi_nnfront_end_common.Monitor.Status.{mantissa_of, exponent_of, decode_router_timeout_value}
use spi_nnfront_end_common.Monitor.Control.{set_router_timeout_message}

both_true : (a b : Bool) → (a && b) ≡ true → (a ≡ true) × (b ≡ true)
both_true true b h = (refl, h)
both_true false b h = cc

-- The argument of the message, and both ways to read it.
abbrev encoded : ℕ → ℕ → ℕ
encoded mantissa exponent = bit_or (mantissa % 16) ((exponent % 16) * 2 ^ 4)

-- The timeout in ticks.
abbrev timeout : ℕ → ℕ → ℕ
timeout mantissa exponent = (mantissa + 16) * 2 ^ exponent - (if leb exponent 4 then 16 else 0)

abbrev is_decoded : ℕ → ℕ → Bool
is_decoded m e =
    (mantissa_of (encoded m e) == m)
    && ((exponent_of (encoded m e) == e)
        && (decode_router_timeout_value (encoded m e) == timeout m e))

all_decoded : all_below (λ m. all_below (λ e. is_decoded m e) 16) 16 ≡ true
unfolding all_below decode_router_timeout_value
all_decoded = refl

-- A timeout with a mantissa and an exponent below 16 is sent in one argument. A status that reports
-- it has these parameters and the timeout (mantissa + 16) * 2 ^ exponent, less 16 where the exponent
-- is at most 4.
set_router_timeout_message-decoded :
    (x y p wait mantissa exponent : ℕ)
    → mantissa < 16
    → exponent < 16
    → (argument : ℕ) × ((set_router_timeout_message x y p mantissa exponent wait).arguments
        ≡ argument ∷ [])
      × (mantissa_of argument ≡ mantissa)
      × (exponent_of argument ≡ exponent)
      × (decode_router_timeout_value argument ≡ timeout mantissa exponent)
unfolding set_router_timeout_message
set_router_timeout_message-decoded x y p wait mantissa exponent h k =
    let all_three : is_decoded mantissa exponent ≡ true =
      all_below-at (λ e. is_decoded mantissa e) 16 exponent
        (all_below-at (λ m. all_below (λ e. is_decoded m e) 16) 16 mantissa all_decoded h) k in
    let (mantissa_test, others) = both_true _ _ all_three in
    let (exponent_test, timeout_test) = both_true _ _ others in
    (
      encoded mantissa exponent,
      refl,
      (==_iff _ _).0 mantissa_test,
      (==_iff _ _).0 exponent_test,
      (==_iff _ _).0 timeout_test,
    )
