-- ===== src/Router/Converted.antt =====
-- What the table with merged bit fields routes.
use spi_nnfront_end_common.Common.{
  ℕ, zero, suc, ◌+◌, ◌*◌, ◌≤◌, ◌<◌, ◌≡◌, refl, ap, ◌∙◌, inl, inr, false, ◌&&◌, Option, none, some,
  List, [], ◌∷◌, ok, ltb, ◌==◌, if◌then◌else◌, Bool-cases, length, get_elem?, replicate, All,
  All-imp, arith,
}
use spi_nnfront_end_common.Common.Maps.{lookup, assign, lookup-assign}
use spi_nnfront_end_common.Router.Bitfields.{
  BitFieldData, bit_array, bit_field_as_bit_array, bit_for_neuron_id,
}
use spi_nnfront_end_common.Router.Bits.{get_elem?-bit_array, length-bit_array}
use spi_nnfront_end_common.Router.Merge.{RoutingEntry, keep_all, use_bit_fields, kept_processors}

abbrev pub or_zero : Option ℕ → ℕ
or_zero none = 0
or_zero (some n) = n

-- The neuron's bit in a bit field.
abbrev pub bit_at : BitFieldData → ℕ → ℕ
bit_at item neuron = or_zero (bit_for_neuron_id item.bit_field neuron)

-- Whether packets of the neuron go to the processor: the bit of the last merged bit field of the
-- processor, and one where there is none.
abbrev pub kept_bit : (ℕ → ℕ) → ℕ → List BitFieldData → ℕ → ℕ → ℕ → ℕ
kept_bit sort_index_of mid_point [] p neuron bit = bit
kept_bit sort_index_of mid_point (item ∷ items) p neuron bit =
    kept_bit sort_index_of mid_point items p neuron (
      if ltb (sort_index_of item.identity) mid_point && p == item.processor_id
      then bit_at item neuron
      else bit)

abbrev pub processors_kept : (ℕ → ℕ) → ℕ → List BitFieldData → ℕ → List ℕ → List ℕ
processors_kept sort_index_of mid_point items neuron [] = []
processors_kept sort_index_of mid_point items neuron (p ∷ ps) =
    if kept_bit sort_index_of mid_point items p neuron 1 == 0
    then processors_kept sort_index_of mid_point items neuron ps
    else p ∷ processors_kept sort_index_of mid_point items neuron ps

-- The entry of one neuron.
abbrev pub neuron_entry : (ℕ → ℕ) → ℕ → RoutingEntry → List BitFieldData → ℕ → RoutingEntry
neuron_entry sort_index_of mid_point e items neuron = record {
  routing_entry_key = e.routing_entry_key + neuron;
  mask = 0xFFFFFFFF;
  link_ids = e.link_ids;
  processor_ids = processors_kept sort_index_of mid_point items neuron e.processor_ids;
  defaultable = false;
}

abbrev pub neuron_entries :
    (ℕ → ℕ) → ℕ → RoutingEntry → List BitFieldData → ℕ → ℕ → List RoutingEntry
neuron_entries sort_index_of mid_point e items zero neuron = []
neuron_entries sort_index_of mid_point e items (suc n) neuron =
    neuron_entry sort_index_of mid_point e items neuron
    ∷ neuron_entries sort_index_of mid_point e items n (neuron + 1)

-- Bit fields that have a bit for each of the neurons.
abbrev pub AllLong : ℕ → List BitFieldData → Type 0
AllLong n items = All (λ item. n ≤ 32 * length item.bit_field) items

get_elem?-some :
    (l : List ℕ) (i : ℕ) → i < length l → get_elem? l i ≡ some (or_zero (get_elem? l i))
get_elem?-some [] i h = absurd (omega arith)
get_elem?-some (a ∷ l) zero h = refl
get_elem?-some (a ∷ l) (suc i) h = get_elem?-some l i (omega arith)

bit_at_lem :
    (item : BitFieldData) (neuron : ℕ)
    → neuron < 32 * length item.bit_field
    → get_elem? (bit_field_as_bit_array item) neuron ≡ some (bit_at item neuron)
bit_at_lem item neuron h =
    get_elem?-some (bit_array item.bit_field) neuron
      (omega (arith, length-bit_array item.bit_field))
    ∙ ap (λ o. some (or_zero o)) (get_elem?-bit_array item.bit_field neuron)

-- The core map has the bit.
abbrev pub HasBit : List (ℕ × List ℕ) → ℕ → ℕ → ℕ → Type 0
HasBit core_map p neuron bit =
    (bits : List ℕ) × (lookup p core_map ≡ some bits) × (get_elem? bits neuron ≡ some bit)

HasBit-assign :
    (item : BitFieldData) (core_map : List (ℕ × List ℕ)) (p neuron bit : ℕ)
    → neuron < 32 * length item.bit_field
    → HasBit core_map p neuron bit
    → HasBit
        (assign item.processor_id (bit_field_as_bit_array item) core_map)
        p
        neuron
        (if p == item.processor_id then bit_at item neuron else bit)
HasBit-assign item core_map p neuron bit long (bits, at, has) =
    let e = lookup-assign p item.processor_id (bit_field_as_bit_array item) core_map in
    elim (Bool-cases (p == item.processor_id)) [
      | inl same ↦
          rw same (bit_field_as_bit_array item, e ∙ rw same refl, bit_at_lem item neuron long)
      | inr other ↦ rw other (bits, e ∙ rw other at, has)
    ]

pub use_bit_fields-HasBit :
    (sort_index_of : ℕ → ℕ) (mid_point : ℕ) (items : List BitFieldData)
    (core_map : List (ℕ × List ℕ)) (n p neuron bit : ℕ)
    → neuron < n
    → AllLong n items
    → HasBit core_map p neuron bit
    → HasBit
        (use_bit_fields sort_index_of mid_point items core_map)
        p
        neuron
        (kept_bit sort_index_of mid_point items p neuron bit)
unfolding use_bit_fields
use_bit_fields-HasBit sort_index_of mid_point [] core_map n p neuron bit lt long h = h
use_bit_fields-HasBit sort_index_of mid_point (item ∷ items) core_map n p neuron bit lt long h =
    elim (Bool-cases (ltb (sort_index_of item.identity) mid_point)) [
      | inl merged ↦ rw merged (
          use_bit_fields-HasBit sort_index_of mid_point items _ n p neuron _ lt long.1
            (HasBit-assign item core_map p neuron bit (omega arith) h))
      | inr kept ↦
          rw kept (
            use_bit_fields-HasBit sort_index_of mid_point items core_map n p neuron bit lt long.1 h)
    ]

pub keep_all-lookup : (mask ps : List ℕ) → All (λ p. lookup p (keep_all mask ps) ≡ some mask) ps
unfolding keep_all
keep_all-lookup mask [] = tt
keep_all-lookup mask (p ∷ ps) = (
  ground (arith, lookup-assign p p mask (keep_all mask ps)),
  All-imp (λ q. lookup q (keep_all mask ps) ≡ some mask)
      (λ q. lookup q (assign p mask (keep_all mask ps)) ≡ some mask)
      (λ q e. ground (arith, lookup-assign q p mask (keep_all mask ps), e)) ps
      (keep_all-lookup mask ps),
)

pub get_elem?-replicate : (n i : ℕ) → i < n → get_elem? {A = ℕ} (replicate n 1) i ≡ some 1
get_elem?-replicate zero i h = absurd (omega arith)
get_elem?-replicate (suc n) zero h = refl
get_elem?-replicate (suc n) (suc i) h = get_elem?-replicate n i (omega arith)

pub kept_processors_lem :
    (sort_index_of : ℕ → ℕ) (mid_point : ℕ) (items : List BitFieldData)
    (core_map : List (ℕ × List ℕ)) (neuron : ℕ) (ps : List ℕ)
    → All (λ p. HasBit core_map p neuron (kept_bit sort_index_of mid_point items p neuron 1)) ps
    → kept_processors core_map neuron ps
      ≡ ok (processors_kept sort_index_of mid_point items neuron ps)
unfolding kept_processors
kept_processors_lem sort_index_of mid_point items core_map neuron [] h = refl
kept_processors_lem sort_index_of mid_point items core_map neuron (p ∷ ps) ((bits, at, has), hs) =
    simp (at, has, kept_processors_lem sort_index_of mid_point items core_map neuron ps hs)
