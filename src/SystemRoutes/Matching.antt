-- ===== src/SystemRoutes/Matching.antt =====
-- Which packets a routing entry matches.
use native.Mathlib.Nat.{div-div-eq-div-mul}
use spi_nnfront_end_common.Common.{
  ℕ, zero, suc, pow_suc, ◌+◌, ◌*◌, ◌/◌, ◌%◌, ◌^◌, ◌<◌, ◌≡◌, refl, sym, ap, ◌∙◌, Bool, true, ◌&&◌,
  ◌==◌, List, arith,
}
use spi_nnfront_end_common.Common.Bounded.{all_below, all_below-at}
use spi_nnfront_end_common.Router.Merge.{RoutingEntry}
use spi_nnfront_end_common.SystemRoutes.Entries.{routing_mask, entry_for}

abbrev pub bit : ℕ → ℕ → Bool
bit word b = (word / 2 ^ b) % 2 == 1

-- The router's test, `(key & mask) == routing_entry_key`, in each of the 32 bits.
abbrev pub Matches : ℕ → RoutingEntry → Type 0
Matches key e = (b : ℕ) → b < 32 → (bit e.mask b && bit key b) ≡ bit e.routing_entry_key b

-- The entry has the key, and matches the packets with it and with the seven keys that follow.
abbrev pub Serves : ℕ → RoutingEntry → Type 0
Serves key e = (e.routing_entry_key ≡ key) × ((j : ℕ) → j < 8 → Matches (key + j) e)

mask_bits : all_below (λ b. bit routing_mask (suc (suc (suc b)))) 29 ≡ true
unfolding all_below
mask_bits = refl

-- The bits from 3 on do not tell a key from those that follow.
high_bits :
    (key j b : ℕ)
    → key % 8 ≡ 0
    → j < 8
    → (key + j) / 2 ^ suc (suc (suc b)) ≡ key / 2 ^ suc (suc (suc b))
high_bits key j b whole small =
    let power : 2 ^ suc (suc (suc b)) ≡ 8 * 2 ^ b =
      omega (arith, pow_suc b, pow_suc (suc b), pow_suc (suc (suc b))) in
    let eighth : (key + j) / 8 ≡ key / 8 = omega arith in
    rw power (
      sym (div-div-eq-div-mul (key + j) 8 (2 ^ b))
      ∙ ap (λ q. q / 2 ^ b) eighth
      ∙ div-div-eq-div-mul key 8 (2 ^ b))

key-Matches :
    (key : ℕ) (ps ls : List ℕ)
    → key % 8 ≡ 0
    → (j : ℕ) → j < 8
    → Matches (key + j) (entry_for key ps ls)
key-Matches key ps ls whole j small zero h = ground arith
key-Matches key ps ls whole j small (suc zero) h = ground arith
key-Matches key ps ls whole j small (suc (suc zero)) h = ground arith
key-Matches key ps ls whole j small (suc (suc (suc b))) h =
    let on =
      all_below-at (λ b. bit routing_mask (suc (suc (suc b)))) 29 b mask_bits (omega arith) in
    rw on (ap (λ n. n % 2 == 1) (high_bits key j b whole small))

-- A key that is a multiple of 8 is served by its entries.
pub entry_for-Serves : (key : ℕ) (ps ls : List ℕ) → key % 8 ≡ 0 → Serves key (entry_for key ps ls)
entry_for-Serves key ps ls whole = (refl, key-Matches key ps ls whole)
