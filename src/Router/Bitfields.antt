-- ===== src/Router/Bitfields.antt =====
-- The bit fields of a chip and how they are read (spinn_front_end_common/interface/
-- interface_functions/host_bit_field_router_compressor.py). A chip's memory is a function from the
-- addresses of words to the words, which the transceiver reads.
use spi_nnfront_end_common.Common.{
  ℕ, zero, suc, ◌+◌, ◌-◌, ◌/◌, ◌%◌, ◌^◌, Option, none, some, List, [], ◌∷◌, ◌++◌, length, get_elem?,
}
use spi_nnfront_end_common.Common.Maps.{lookup, assign}

-- `_BitFieldData`, where `identity` tells the objects apart. `sort_index` changes, and is kept
-- apart from the objects.
pub record BitFieldData : Type 0 where
  pub identity : ℕ
  pub processor_id : ℕ
  pub bit_field : List ℕ
  pub master_pop_key : ℕ
  pub n_atoms_address : ℕ
  pub n_atoms_word : ℕ
  pub core_shift : ℕ
  pub n_atoms_per_core : ℕ

-- `(word >> i) & 1` for `n` numbers `i` from `from` on.
unfoldable pub bits_from : ℕ → ℕ → ℕ → List ℕ
bits_from zero from word = []
bits_from (suc n) from word = (word / 2 ^ from) % 2 ∷ bits_from n (from + 1) word

unfoldable pub bit_array : List ℕ → List ℕ
bit_array [] = []
bit_array (word ∷ words) = bits_from 32 0 word ++ bit_array words

abbrev pub bit_field_as_bit_array : BitFieldData → List ℕ
bit_field_as_bit_array data_item = bit_array data_item.bit_field

-- `(word >> bit_in_word) & _BIT_MASK`, `none` where there is no such word.
abbrev pub bit_of : ℕ → Option ℕ → Option ℕ
bit_of bit_in_word none = none
bit_of bit_in_word (some word) = some ((word / 2 ^ bit_in_word) % 2)

unfoldable pub bit_for_neuron_id : List ℕ → ℕ → Option ℕ
bit_for_neuron_id bit_field neuron_id =
    bit_of (neuron_id % 32) (get_elem? bit_field (neuron_id / 32))

unfoldable pub sum : List ℕ → ℕ
sum [] = 0
sum (n ∷ ns) = n + sum ns

-- A dictionary of lists that makes a missing list.
module _ {A : Type 0} where
  abbrev pub or_empty : Option (List A) → List A
  or_empty none = []
  or_empty (some l) = l

  unfoldable pub append_at : ℕ → A → List (ℕ × List A) → List (ℕ × List A)
  append_at key a d = assign key (or_empty (lookup key d) ++ a ∷ []) d

-- What has been read, with the number of objects so far.
pub record Read : Type 0 where
  pub bit_fields_by_key : List (ℕ × List BitFieldData)
  pub bit_fields_by_coverage : List (ℕ × List BitFieldData)
  pub processor_coverage_by_bitfield : List (ℕ × List ℕ)
  pub n_read : ℕ

abbrev pub nothing_read : Read
nothing_read = record {
  bit_fields_by_key = [];
  bit_fields_by_coverage = [];
  processor_coverage_by_bitfield = [];
  n_read = 0;
}

-- "Number of fields in the array that are zero instead of one"
abbrev pub n_redundant_packets : BitFieldData → ℕ
n_redundant_packets item = length (bit_field_as_bit_array item) - sum (bit_field_as_bit_array item)

unfoldable pub keep_bit_field : BitFieldData → Read → Read
keep_bit_field item r = record {
  bit_fields_by_key = append_at item.master_pop_key item r.bit_fields_by_key;
  bit_fields_by_coverage = append_at (n_redundant_packets item) item r.bit_fields_by_coverage;
  processor_coverage_by_bitfield =
      append_at item.processor_id (n_redundant_packets item) r.processor_coverage_by_bitfield;
  n_read = r.n_read + 1;
}

module _ (memory : ℕ → ℕ) where
  unfoldable pub words_at : ℕ → ℕ → List ℕ
  words_at zero address = []
  words_at (suc n) address = memory address ∷ words_at n (address + 4)

  -- One filter: the key, the word of the number of atoms, the word of the cores and the pointer.
  unfoldable pub read_filter : ℕ → ℕ → ℕ → BitFieldData
  read_filter identity processor_id reading_address =
      let n_atoms_word = memory (reading_address + 4) in
      let n_per_core_word = memory (reading_address + 8) in
      let atoms = n_atoms_word % 2 ^ 30 in
      record {
        identity = identity;
        processor_id = processor_id;
        bit_field = words_at ((atoms + 31) / 32) (memory (reading_address + 12));
        master_pop_key = memory reading_address;
        n_atoms_address = reading_address + 4;
        n_atoms_word = n_atoms_word;
        core_shift = n_per_core_word % 2 ^ 5;
        n_atoms_per_core = n_per_core_word / 2 ^ 5;
      }

  unfoldable pub read_filters : ℕ → ℕ → ℕ → Read → Read
  read_filters zero processor_id reading_address r = r
  read_filters (suc n) processor_id reading_address r =
      read_filters n processor_id (reading_address + 16)
        (keep_bit_field (read_filter r.n_read processor_id reading_address) r)

  -- The loop over the cores with their base addresses.
  unfoldable pub read_cores : List (ℕ × ℕ) → Read → Read
  read_cores [] r = r
  read_cores (core ∷ cores) r =
      read_cores cores (read_filters (memory core.1) core.0 (core.1 + 4) r)
