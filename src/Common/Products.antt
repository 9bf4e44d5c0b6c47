-- ===== src/Common/Products.antt =====
-- Products and powers of two, which the tactics do not compare.
use Prim.Native.Nat.{ℕ, zero, suc, ◌*◌, ◌^◌, ◌≤◌}
use mathlib.Core.Path.{◌≡◌}
use native.Mathlib.Omega.{arith}
use native.Mathlib.Numerals.{unary_clauses}

pub times_le : (a b c : ℕ) → a ≤ b → a * c ≤ b * c
times_le zero b c h = omega arith
times_le (suc a) zero c h = absurd (omega arith)
times_le (suc a) (suc b) c h = grind (arith, times_le a b c (omega arith))

pub pow_suc : (k : ℕ) → 2 ^ suc k ≡ 2 * 2 ^ k
pow_suc k = simp unary_clauses (omega arith)

pub pow_pos : (k : ℕ) → 1 ≤ 2 ^ k
pow_pos zero = omega arith
pow_pos (suc k) = omega (arith, pow_suc k, pow_pos k)
