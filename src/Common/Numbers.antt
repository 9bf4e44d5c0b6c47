-- ===== src/Common/Numbers.antt =====
-- A Python `set` of integers as the ascending list of its members, so `sorted(s)` is the list.
use Prim.Native.Nat.{ℕ, suc, ◌+◌, ◌≤◌, ◌<◌}
use mathlib.Core.Path.{◌≡◌, refl}
use mathlib.Core.Logic.{inl, inr}
use mathlib.Core.Bool.{Bool, true, false, ◌||◌}
use mathlib.Core.List.{List, [], ◌∷◌}
use native.Mathlib.Decide.{dec_lt}
use mathlib.Core.Bool.{false≢true}
use native.Mathlib.Omega.{arith}
use spi_nnfront_end_common.Common.Tests.{ltb, ◌==◌, if◌then◌else◌, Bool-cases}
use spi_nnfront_end_common.Common.Lists.{length}

-- `s.add(n)`
unfoldable pub add : ℕ → List ℕ → List ℕ
add n [] = n ∷ []
add n (m ∷ ms) = if ltb n m then n ∷ m ∷ ms else if n == m then m ∷ ms else m ∷ add n ms

-- `s.update(l)`
unfoldable pub update : List ℕ → List ℕ → List ℕ
update [] s = s
update (n ∷ ns) s = update ns (add n s)

-- `n in s`
unfoldable pub member : ℕ → List ℕ → Bool
member n [] = false
member n (m ∷ ms) = n == m || member n ms

-- Every member is at least `lo`, in strictly ascending order, and below `hi`.
abbrev pub IsAscending : ℕ → List ℕ → ℕ → Type 0
IsAscending lo [] hi = lo ≤ hi
IsAscending lo (m ∷ ms) hi = (lo ≤ m) × IsAscending (suc m) ms hi

pub member-add : (k n : ℕ) (s : List ℕ) → member k (add n s) ≡ (k == n || member k s)
unfolding member add
member-add k n [] = refl
member-add k n (m ∷ ms) = ground (arith, member-add k n ms)

pub member-update : (k : ℕ) (ns s : List ℕ) → member k (update ns s) ≡ (member k ns || member k s)
unfolding update member
member-update k [] s = refl
member-update k (n ∷ ns) s = ground (arith, member-update k ns (add n s), member-add k n s)

pub add-IsAscending :
    (n lo hi : ℕ) (s : List ℕ) → lo ≤ n → n < hi → IsAscending lo s hi → IsAscending lo (add n s) hi
unfolding add
add-IsAscending n lo hi [] p q h = omega arith
add-IsAscending n lo hi (m ∷ ms) p q h =
    ground (arith, λ (r : m < n). add-IsAscending n (suc m) hi ms r q h.1)

pub IsAscending-length : (lo hi : ℕ) (s : List ℕ) → IsAscending lo s hi → lo + length s ≤ hi
IsAscending-length lo hi [] h = omega arith
IsAscending-length lo hi (m ∷ ms) h = omega (arith, IsAscending-length (suc m) hi ms h.1)

-- A set below `hi` that has as many members as there are numbers from `lo` has them all.
pub IsAscending-full :
    (k lo hi : ℕ) (s : List ℕ)
    → IsAscending lo s hi
    → lo + length s ≡ hi
    → lo ≤ k
    → k < hi
    → member k s ≡ true
unfolding member
IsAscending-full k lo hi [] h e p q = absurd (omega arith)
IsAscending-full k lo hi (m ∷ ms) h e p q = elim (Bool-cases (k == m)) [
  | inl same ↦ ground arith
  | inr other ↦
      ground (arith, IsAscending-length (suc m) hi ms h.1, IsAscending-full k (suc m) hi ms h.1)
]

member-ge : (k lo hi : ℕ) (s : List ℕ) → IsAscending lo s hi → member k s ≡ true → lo ≤ k
unfolding member
member-ge k lo hi [] h e = cc
member-ge k lo hi (m ∷ ms) h e = ground (arith, member-ge k (suc m) hi ms h.1)

-- A set from `lo` on that has every number below `hi` has as many members as there are numbers.
pub length_full :
    (lo hi : ℕ) (s : List ℕ)
    → IsAscending lo s hi
    → ((k : ℕ) → lo ≤ k → k < hi → member k s ≡ true)
    → lo + length s ≡ hi
unfolding member
length_full lo hi [] h all_there = elim (dec_lt lo hi) [
  | yes p ↦ absurd (false≢true (all_there lo (omega arith) p))
  | no p ↦ omega arith
]
length_full lo hi (m ∷ ms) h all_there =
    let within = IsAscending-length (suc m) hi ms h.1 in
    let first : m ≡ lo = elim (Bool-cases (lo == m)) [
      | inl same ↦ ground arith
      | inr other ↦
          absurd (
            ground
              (arith, all_there lo (omega arith) (omega arith), member-ge lo (suc m) hi ms h.1))
    ] in
    omega (
      arith,
      first,
      length_full (suc m) hi ms h.1 (λ k p q. ground (arith, all_there k (omega arith) q)),
    )

-- What `grind` reads of the members of a set that numbers were added to.
pub ruleset sets = (arith, member-add, member-update)
