-- ===== src/Router/Tests.antt =====
-- Two cores with one bit field each, for one key with two neurons.
use spi_nnfront_end_common.Common.{
  ℕ, ◌≡◌, refl, inl, inr, false, Option, none, some, List, [], ◌∷◌, ◌++◌, ok, get_elem?,
  Result-cases, arith, ◌>>=◌,
}
use spi_nnfront_end_common.Common.Maps.{lookup, assign}
use spi_nnfront_end_common.Common.Numbers.{member}
use spi_nnfront_end_common.Router.Bitfields.{
  bits_from, bit_array, bit_for_neuron_id, sum, append_at, keep_bit_field, words_at, read_filter,
  read_filters, read_cores, nothing_read,
}
use spi_nnfront_end_common.Router.Order.{
  insert_sorted, sort_descending, remove_item, remove_each, cover, cover_counts, order_cores,
  number_each, number_left, order_bit_fields,
}
use spi_nnfront_end_common.Router.Merge.{Appends, RoutingEntry, convert_bitfields_into_router_table}
use spi_nnfront_end_common.Router.Compress.{Packages, Chip, read_of, order_of, compress_bitfields}
use spi_nnfront_end_common.Router.Bits.{get_elem?-bit_array}
use spi_nnfront_end_common.Router.Bijection.{IsNumbering, order_bit_fields-IsNumbering}
use spi_nnfront_end_common.Router.Table.{
  AllKnown, AreApart, all_entries, convert_bitfields_into_router_table_lem,
}
use spi_nnfront_end_common.Router.Consistent.{
  Searches, Compresses, Outcome, compress_bitfields-IsMerged,
}

abbrev or_0 : Option ℕ → ℕ
or_0 none = 0
or_0 (some n) = n

-- Each core has its bit field behind its filter.
abbrev words : List (ℕ × ℕ)
words =
    (1000, 1)
    ∷ (1004, 0x100)
    ∷ (1008, 2)
    ∷ (1012, 0)
    ∷ (1016, 1020)
    ∷ (1020, 2)
    ∷ (2000, 1)
    ∷ (2004, 0x100)
    ∷ (2008, 2)
    ∷ (2012, 0)
    ∷ (2016, 2020)
    ∷ (2020, 1)
    ∷ []

abbrev chip : Chip
chip = record {
  memory = λ a. or_0 (lookup a words);
  base_addresses = (3, 1000) ∷ (4, 2000) ∷ [];
  core_cost_map = (3, 2) ∷ (4, 5) ∷ [];
  n_placable_processors = 17;
}

abbrev entry : ℕ → List ℕ → RoutingEntry
entry key processors = record {
  routing_entry_key = key;
  mask = 0xFFFFFFFF;
  link_ids = 1 ∷ [];
  processor_ids = processors;
  defaultable = false;
}

-- The second key has no bit fields.
abbrev table : List RoutingEntry
table = entry 0x100 (3 ∷ 4 ∷ []) ∷ entry 0x200 (3 ∷ []) ∷ []

abbrev atoms : List (ℕ × ℕ)
atoms = (0x100, 2) ∷ (0x200, 2) ∷ []

abbrev packages : Packages RoutingEntry
packages = record {
  add_entry = λ e t. ok (t ++ e ∷ []);
  compress_table = λ t. ok t;
  find_max_success = λ n check s. check n s >>= λ r. ok r.0;
}

get_elem?-bit_array_example :
    get_elem? (bit_array (5 ∷ 9 ∷ [])) 35 ≡ bit_for_neuron_id (5 ∷ 9 ∷ []) 35
get_elem?-bit_array_example = get_elem?-bit_array (5 ∷ 9 ∷ []) 35

order_bit_fields-IsNumbering_example :
    IsNumbering
      (order_bit_fields chip.core_cost_map
        (read_cores chip.memory chip.base_addresses nothing_read))
      (read_cores chip.memory chip.base_addresses nothing_read).n_read
order_bit_fields-IsNumbering_example =
    order_bit_fields-IsNumbering chip.memory chip.base_addresses chip.core_cost_map

-- The most costly core's bit field comes first.
ordered : (order_of chip).sort_index_of 1 ≡ 0
unfolding order_bit_fields order_cores cover_counts cover remove_each remove_item number_left
    number_each sort_descending insert_sorted read_cores read_filters read_filter words_at
    keep_bit_field append_at lookup assign sum bit_array bits_from member
ordered = refl

known : AllKnown atoms (read_of chip).bit_fields_by_key table
unfolding read_cores read_filters read_filter words_at keep_bit_field append_at lookup assign
known = ((refl, (omega arith, (omega arith, tt))), (tt, tt))

apart : AreApart atoms (read_of chip).bit_fields_by_key table
unfolding lookup
apart = ((inl (omega arith), tt), (tt, tt))

appends : Appends packages.add_entry
appends e t h = refl

compresses : Compresses packages.compress_table
compresses t = inl (t, refl)

searches : Searches packages.find_max_success
searches P n check s keeps p = elim (Result-cases (check n s)) [
  | inl (r, e) ↦ rw e (rw e at (keeps n s (omega arith) p))
  | inr (x, e) ↦ absurd (rw e at (keeps n s (omega arith) p))
]

convert_bitfields_into_router_table_example :
    convert_bitfields_into_router_table packages.add_entry atoms
      (read_of chip).bit_fields_by_key
      (order_of chip).sort_index_of
      table
      1
    ≡ ok (all_entries atoms (read_of chip).bit_fields_by_key (order_of chip).sort_index_of 1 table)
convert_bitfields_into_router_table_example =
    convert_bitfields_into_router_table_lem packages.add_entry appends atoms
      (read_of chip).bit_fields_by_key (order_of chip).sort_index_of 1 table known apart

-- Nothing is left of the entry without bit fields.
entries_made :
    all_entries atoms (read_of chip).bit_fields_by_key (order_of chip).sort_index_of 1 table
    ≡ entry 0x100 (3 ∷ 4 ∷ []) ∷ entry 0x101 (3 ∷ []) ∷ []
unfolding order_bit_fields order_cores cover_counts cover remove_each remove_item number_left
    number_each sort_descending insert_sorted read_cores read_filters read_filter words_at
    keep_bit_field append_at lookup assign sum bit_array bits_from member bit_for_neuron_id
entries_made = refl

compress_bitfields-IsMerged_example :
    Outcome packages atoms chip table (compress_bitfields packages atoms chip table)
compress_bitfields-IsMerged_example =
    compress_bitfields-IsMerged packages atoms chip table appends compresses known apart searches
