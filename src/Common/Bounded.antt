-- ===== src/Common/Bounded.antt =====
-- A test that holds of all numbers below a bound, which can be run.
use Prim.Native.Nat.{ℕ, zero, suc, ◌<◌}
use mathlib.Core.Path.{◌≡◌}
use mathlib.Core.Logic.{inl, inr}
use mathlib.Core.Bool.{Bool, true, ◌&&◌}
use native.Mathlib.Omega.{arith}
use spi_nnfront_end_common.Common.Tests.{==_cases}

unfoldable pub all_below : (ℕ → Bool) → ℕ → Bool
all_below test zero = true
all_below test (suc k) = test k && all_below test k

pub all_below-at : (test : ℕ → Bool) (k n : ℕ) → all_below test k ≡ true → n < k → test n ≡ true
unfolding all_below
all_below-at test zero n h p = absurd (omega arith)
all_below-at test (suc k) n h p = elim (==_cases n k) [
  | inl (e', _) ↦ rw e' (ground arith)
  | inr e ↦ all_below-at test k n (ground arith) (ground arith)
]
