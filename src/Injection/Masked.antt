-- ===== src/Injection/Masked.antt =====
-- A mask leaves room for the neurons, and for no more than twice as many.
use spi_nnfront_end_common.Common.{
  ==_cases, ℕ, zero, suc, ◌+◌, ◌*◌, ◌/◌, ◌^◌, ◌≤◌, ◌<◌, ◌≡◌, inl, inr, ◌==◌, ==_iff, Bool-cases,
  pow_suc, pow_pos, arith,
}
use spi_nnfront_end_common.Injection.Masks.{bits_needed, bit_length, calculate_mask}

lt-bits_needed : (fuel n : ℕ) → n ≤ fuel → n < 2 ^ bits_needed fuel n
unfolding bits_needed
lt-bits_needed zero n h = omega arith
lt-bits_needed (suc fuel) n h = elim (Bool-cases (n == 0)) [
  | inl e ↦ rw e (omega (arith, (==_iff n 0).0 e))
  | inr e ↦ rw e (
      let half = lt-bits_needed fuel (n / 2) (ground arith) in
      omega (arith, half, pow_suc (bits_needed fuel (n / 2))))
]

bits_needed-zero : (fuel : ℕ) → bits_needed fuel 0 ≡ 0
unfolding bits_needed
bits_needed-zero zero = omega arith
bits_needed-zero (suc fuel) = omega arith

bits_needed-le : (fuel n : ℕ) → n ≤ fuel → 1 ≤ n → 2 ^ bits_needed fuel n ≤ 2 * n
unfolding bits_needed
bits_needed-le zero n h p = absurd (omega arith)
bits_needed-le (suc fuel) n h p = elim (Bool-cases (n == 0)) [
  | inl e ↦ absurd (omega (arith, (==_iff n 0).0 e))
  | inr e ↦ elim (==_cases (n / 2) 0) [
    | inl (half, _) ↦ rw (e, half, bits_needed-zero fuel) (omega arith)
    | inr more ↦
        let half = bits_needed-le fuel (n / 2) (omega arith) (ground arith) in
        rw e (omega (arith, half, pow_suc (bits_needed fuel (n / 2))))
  ]
]

bits_needed-fit : (fuel n k : ℕ) → n < 2 ^ k → 2 ^ bits_needed fuel n ≤ 2 ^ k
unfolding bits_needed
bits_needed-fit zero n k h = omega (arith, pow_pos k)
bits_needed-fit (suc fuel) n zero h = elim (Bool-cases (n == 0)) [
  | inl e ↦ rw e (omega arith)
  | inr e ↦ absurd (ground arith)
]
bits_needed-fit (suc fuel) n (suc k) h = elim (Bool-cases (n == 0)) [
  | inl e ↦ rw e (omega (arith, pow_pos (suc k)))
  | inr e ↦
      let half = bits_needed-fit fuel (n / 2) k (omega (arith, h, pow_suc k)) in
      rw e (omega (arith, half, pow_suc k, pow_suc (bits_needed fuel (n / 2))))
]

-- For at least one neuron and fewer than 2^32: the mask is the 32-bit number that leaves some low
-- bits free, these are enough for a key for each neuron, and make no more than twice as many keys as there are neurons.
pub calculate_mask_lem :
    (n_neurons : ℕ)
    → 1 ≤ n_neurons
    → n_neurons < 2 ^ 32
    → (free : ℕ) × (calculate_mask n_neurons + 2 ^ free ≡ 2 ^ 32)
      × (n_neurons < 2 ^ free)
      × (2 ^ free ≤ 2 * n_neurons)
unfolding calculate_mask
calculate_mask_lem n p q =
    let room = lt-bits_needed n n (omega arith) in
    (
      bit_length n,
      omega (arith, bits_needed-fit n n 32 q, room),
      room,
      bits_needed-le n n (omega arith) p,
    )
