-- ===== src/Router/Bits.antt =====
-- The bit array of a bit field and the bit of one neuron.
use spi_nnfront_end_common.Common.{
  ℕ, zero, suc, ◌+◌, ◌-◌, ◌*◌, ◌/◌, ◌%◌, ◌^◌, ◌≤◌, ◌<◌, ◌≡◌, refl, sym, ap, ◌∙◌, inl, inr, some,
  List, [], ◌∷◌, length, length-append, get_elem?, get_elem?-append_left, get_elem?-append_right,
  arith, ltb, Bool-cases, ltb→lt, ltb→le,
}
use spi_nnfront_end_common.Router.Bitfields.{bits_from, bit_array, bit_of, bit_for_neuron_id}

length-bits_from : (n from word : ℕ) → length (bits_from n from word) ≡ n
unfolding bits_from
length-bits_from zero from word = refl
length-bits_from (suc n) from word = omega (arith, length-bits_from n (from + 1) word)

get_elem?-bits_from :
    (n from word i : ℕ)
    → i < n
    → get_elem? (bits_from n from word) i ≡ some ((word / 2 ^ (from + i)) % 2)
unfolding bits_from
get_elem?-bits_from zero from word i h = absurd (omega arith)
get_elem?-bits_from (suc n) from word zero h =
    ap (λ k. some ((word / 2 ^ k) % 2)) {x = from} {y = from + 0} (omega arith)
get_elem?-bits_from (suc n) from word (suc i) h =
    get_elem?-bits_from n (from + 1) word i (omega arith)
    ∙ ap (λ k. some ((word / 2 ^ k) % 2)) {x = (from + 1) + i} {y = from + suc i} (omega arith)

pub length-bit_array : (words : List ℕ) → length (bit_array words) ≡ 32 * length words
unfolding bit_array
length-bit_array [] = refl
length-bit_array (word ∷ words) = omega (
  arith,
  length-append (bits_from 32 0 word) (bit_array words),
  length-bits_from 32 0 word,
  length-bit_array words,
)

bit_for_neuron_id_first :
    (word : ℕ) (words : List ℕ) (i : ℕ)
    → i / 32 ≡ 0
    → bit_for_neuron_id (word ∷ words) i ≡ some ((word / 2 ^ (i % 32)) % 2)
unfolding bit_for_neuron_id
bit_for_neuron_id_first word words i e = ap (λ k. bit_of (i % 32) (get_elem? (word ∷ words) k)) e

bit_for_neuron_id_later :
    (word : ℕ) (words : List ℕ) (i : ℕ)
    → i / 32 ≡ suc ((i - 32) / 32)
    → i % 32 ≡ (i - 32) % 32
    → bit_for_neuron_id (word ∷ words) i ≡ bit_for_neuron_id words (i - 32)
unfolding bit_for_neuron_id
bit_for_neuron_id_later word words i e b =
    ap (λ k. bit_of (i % 32) (get_elem? (word ∷ words) k)) e
    ∙ ap (λ k. bit_of k (get_elem? words ((i - 32) / 32))) b

-- The bit array has the bit of each neuron at the neuron's place, and ends where the words end.
pub get_elem?-bit_array :
    (words : List ℕ) (i : ℕ) → get_elem? (bit_array words) i ≡ bit_for_neuron_id words i
unfolding bit_array bit_for_neuron_id
get_elem?-bit_array [] i = refl
get_elem?-bit_array (word ∷ words) i = elim (Bool-cases (ltb i 32)) [
  | inl first ↦
      let lt : i < 32 = ltb→lt i 32 first in
      let word_id : i / 32 ≡ 0 = omega arith in
      let bit : i % 32 ≡ i = omega arith in
      get_elem?-append_left (bits_from 32 0 word) (bit_array words) i
        (omega (arith, length-bits_from 32 0 word))
      ∙ get_elem?-bits_from 32 0 word i lt
      ∙ ap (λ k. some ((word / 2 ^ k) % 2)) {x = 0 + i} {y = i % 32} (omega arith)
      ∙ sym (bit_for_neuron_id_first word words i word_id)
  | inr later ↦
      let le : 32 ≤ i = ltb→le i 32 later in
      let long = length-bits_from 32 0 word in
      let word_id : i / 32 ≡ suc ((i - 32) / 32) = omega arith in
      let bit : i % 32 ≡ (i - 32) % 32 = omega arith in
      get_elem?-append_right (bits_from 32 0 word) (bit_array words) i (omega arith)
      ∙ ap (λ k. get_elem? (bit_array words) (i - k)) long
      ∙ get_elem?-bit_array words (i - 32)
      ∙ sym (bit_for_neuron_id_later word words i word_id bit)
]
