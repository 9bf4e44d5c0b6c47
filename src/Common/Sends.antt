-- ===== src/Common/Sends.antt =====
-- Calls that send messages and may raise: what was sent before an exception stays sent.
use mathlib.Core.List.{List, [], ◌∷◌, ◌++◌}
use spi_nnfront_end_common.Common.Lists.{All, All-append}
use spi_nnfront_end_common.Common.Results.{Result, ok, err}

module _ (M : Type 0) where
  abbrev pub Send : Type 0 → Type 0
  Send A = List M × Result A

module _ {M A : Type 0} where
  abbrev pub pure : A → Send M A
  pure a = ([], ok a)

  abbrev pub lift : Result A → Send M A
  lift r = ([], r)

module _ {M : Type 0} where
  -- `connection.send_sdp_message(m)`
  abbrev pub send : M → Send M (Unit {0})
  send m = (m ∷ [], ok tt)

module _ {M A B : Type 0} where
  abbrev pub continue : List M → Result A → (A → Send M B) → Send M B
  continue l (ok a) f = (l ++ (f a).0, (f a).1)
  continue l (err e) f = (l, err e)

  infixl 5 ◌>>=◌
  abbrev pub ◌>>=◌ : Send M A → (A → Send M B) → Send M B
  m >>= f = continue m.0 m.1 f

module _ {M B : Type 0} where
  infixl 5 ◌>>◌
  abbrev pub ◌>>◌ : Send M (Unit {0}) → Send M B → Send M B
  m >> k = m >>= λ _. k

module _ {M A B : Type 0} where
  pub All-bind :
      (P : M → Type 0) (m : Send M A) (f : A → Send M B)
      → All P m.0
      → ((a : A) → All P (f a).0)
      → All P (m >>= f).0
  All-bind P (sent, ok a) f h k = All-append P sent (f a).0 h (k a)
  All-bind P (sent, err e) f h k = h

-- What holds of the value, if there is one.
abbrev pub Holds : {A : Type 0} → (A → Type 0) → Result A → Type 0
Holds P (ok a) = P a
Holds P (err e) = Unit
