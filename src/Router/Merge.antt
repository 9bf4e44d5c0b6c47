-- ===== src/Router/Merge.antt =====
-- Merging bit fields into the table and searching how many fit (spinn_front_end_common/interface/
-- interface_functions/host_bit_field_router_compressor.py). The routing table's `add`, the compressor
-- and `find_max_success` are other packages' code, and arguments.
use spi_nnfront_end_common.Common.{
  ℕ, zero, suc, ◌+◌, ◌/◌, ◌%◌, ◌^◌, Bool, true, false, Option, none, some, List, [], ◌∷◌, ◌++◌,
  Result, ok, err, Error, key_error, index_error, minimisation_failed_error,
  pacman_element_allocation_exception, pacman_algorithm_failed_to_generate_outputs_exception, ltb,
  ◌==◌, if◌then◌else◌, length, All, ◌≡◌, ◌≢◌, get_elem?, replicate, ◌>>=◌, ◌>>◌, raise_if,
}
use spi_nnfront_end_common.Common.Maps.{lookup, assign}
use spi_nnfront_end_common.Router.Bitfields.{BitFieldData, bit_field_as_bit_array}

-- MulticastRoutingEntry
pub record RoutingEntry : Type 0 where
  pub routing_entry_key : ℕ
  pub mask : ℕ
  pub link_ids : List ℕ
  pub processor_ids : List ℕ
  pub defaultable : Bool

-- What the table's `add` does for a key that it does not have: it appends the entry.
abbrev pub Appends : (RoutingEntry → List RoutingEntry → Result (List RoutingEntry)) → Type 0
Appends add_entry =
    (e : RoutingEntry) (table : List RoutingEntry)
    → All (λ x. x.routing_entry_key ≢ e.routing_entry_key) table
    → add_entry e table ≡ ok (table ++ e ∷ [])

abbrev pub item_or {ℓ} : {A : Type ℓ} → Error → Option A → Result A
item_or e none = err e
item_or e (some a) = ok a

-- The core map of the entry's processors.
unfoldable pub keep_all : List ℕ → List ℕ → List (ℕ × List ℕ)
keep_all all_mask [] = []
keep_all all_mask (p ∷ ps) = assign p all_mask (keep_all all_mask ps)

-- "For those below the midpoint use the bitfield data"
unfoldable pub use_bit_fields :
    (ℕ → ℕ) → ℕ → List BitFieldData → List (ℕ × List ℕ) → List (ℕ × List ℕ)
use_bit_fields sort_index_of mid_point [] core_map = core_map
use_bit_fields sort_index_of mid_point (item ∷ items) core_map =
    use_bit_fields sort_index_of mid_point items (
      if ltb (sort_index_of item.identity) mid_point
      then assign item.processor_id (bit_field_as_bit_array item) core_map
      else core_map)

-- `core_map[processor_id][neuron]`
abbrev pub core_bit : List (ℕ × List ℕ) → ℕ → ℕ → Result ℕ
core_bit core_map neuron p = do
  bits ← item_or key_error (lookup p core_map)
  item_or index_error (get_elem? bits neuron)

-- The processors that keep the neuron's packets.
unfoldable pub kept_processors : List (ℕ × List ℕ) → ℕ → List ℕ → Result (List ℕ)
kept_processors core_map neuron [] = ok []
kept_processors core_map neuron (p ∷ ps) = do
  bit ← core_bit core_map neuron p
  rest ← kept_processors core_map neuron ps
  ok (if bit == 0 then rest else p ∷ rest)

module _ (add_entry : RoutingEntry → List RoutingEntry → Result (List RoutingEntry)) where
  -- "Add an Entry for each neuron", for `n` neurons from `neuron` on.
  unfoldable pub add_neurons :
      RoutingEntry → List (ℕ × List ℕ) → ℕ → ℕ → List RoutingEntry → Result (List RoutingEntry)
  add_neurons original_entry core_map zero neuron table = ok table
  add_neurons original_entry core_map (suc n) neuron table = do
    processors ← kept_processors core_map neuron original_entry.processor_ids
    table' ←
        add_entry
          (record {
            routing_entry_key = original_entry.routing_entry_key + neuron;
            mask = 0xFFFFFFFF;
            link_ids = original_entry.link_ids;
            processor_ids = processors;
            defaultable = false;
          })
          table
    add_neurons original_entry core_map n (neuron + 1) table'

  module _ (key_atom_map : List (ℕ × ℕ)) (by_key : List (ℕ × List BitFieldData))
      (sort_index_of : ℕ → ℕ) where
    -- One original entry, whose bit fields are given if there are any.
    abbrev pub convert_entry :
        ℕ
        → RoutingEntry
        → Option (List BitFieldData)
        → List RoutingEntry
        → Result (List RoutingEntry)
    convert_entry mid_point original_entry none table = ok table
    convert_entry mid_point original_entry (some items) table = do
      n_neurons ← item_or key_error (lookup original_entry.routing_entry_key key_atom_map)
      add_neurons original_entry
          (use_bit_fields sort_index_of mid_point items
            (keep_all (replicate n_neurons 1) original_entry.processor_ids))
          n_neurons 0 table

    unfoldable pub convert_entries :
        ℕ → List RoutingEntry → List RoutingEntry → Result (List RoutingEntry)
    convert_entries mid_point [] table = ok table
    convert_entries mid_point (original_entry ∷ entries) table = do
      table' ←
          convert_entry mid_point original_entry (lookup original_entry.routing_entry_key by_key)
            table
      convert_entries mid_point entries table'

    unfoldable pub convert_bitfields_into_router_table :
        List RoutingEntry → ℕ → Result (List RoutingEntry)
    convert_bitfields_into_router_table router_table mid_point =
        convert_entries mid_point router_table []

-- `_compression_attempts`
pub data Attempt : Type 0 where
  success fail exception : Attempt

module _ (RTEntry : Type 0) where
  -- The best so far: `none` for the midpoint -1.
  pub record Best : Type 0 where
    pub best_routing_entries : List RTEntry
    pub best_midpoint : Option ℕ
    pub compression_attempts : List (ℕ × Attempt)

module _ {RTEntry : Type 0} (compress_table : List RoutingEntry → Result (List RTEntry))
    (n_placable_processors : ℕ) where
  unfoldable pub run_algorithm : List RoutingEntry → Result (List RTEntry)
  run_algorithm router_table = do
    compressed_entries ← compress_table router_table
    raise_if (ltb n_placable_processors (length compressed_entries)) minimisation_failed_error
    ok compressed_entries

  abbrev pub succeeded : ℕ → List RTEntry → Best RTEntry → Best RTEntry
  succeeded mid_point entries best = record {
    best_routing_entries = entries;
    best_midpoint = some mid_point;
    compression_attempts = assign mid_point success best.compression_attempts;
  }

  abbrev pub tried : ℕ → Attempt → Best RTEntry → Best RTEntry
  tried mid_point attempt best = record best {
    compression_attempts = assign mid_point attempt best.compression_attempts;
  }

  -- What the two `except` clauses make of the attempt.
  abbrev pub attempted : ℕ → Best RTEntry → Result (List RTEntry) → Result (Best RTEntry × Bool)
  attempted mid_point best (ok entries) = ok (succeeded mid_point entries best, true)
  attempted mid_point best (err minimisation_failed_error) = ok (tried mid_point fail best, false)
  attempted mid_point best (err pacman_element_allocation_exception) =
      ok (tried mid_point exception best, false)
  attempted mid_point best (err e) = err e

  unfoldable pub binary_search_check :
      (ℕ → Result (List RoutingEntry)) → ℕ → Best RTEntry → Result (Best RTEntry × Bool)
  binary_search_check convert mid_point best = do
    bit_field_router_table ← convert mid_point
    attempted mid_point best (run_algorithm bit_field_router_table)

  -- "try first just uncompressed"
  abbrev pub first_attempt : Best RTEntry → Result (List RTEntry) → Result (Best RTEntry)
  first_attempt best (ok entries) = ok (succeeded 0 entries best)
  first_attempt best (err minimisation_failed_error) =
      err pacman_algorithm_failed_to_generate_outputs_exception
  first_attempt best (err e) = err e

  module _
      (find_max_success : ℕ
        → (ℕ → Best RTEntry → Result (Best RTEntry × Bool))
        → Best RTEntry
        → Result (Best RTEntry)) where
    unfoldable pub start_binary_search :
        (ℕ → Result (List RoutingEntry)) → List RoutingEntry → ℕ → Result (Best RTEntry)
    start_binary_search convert router_table n_bitfields = do
      best ←
          first_attempt
            (record { best_routing_entries = []; best_midpoint = none; compression_attempts = [] })
            (run_algorithm router_table)
      find_max_success n_bitfields (binary_search_check convert) best

-- `n_atoms_word | MERGED_SETTER`, for a word.
abbrev pub set_merged : ℕ → ℕ
set_merged word = if (word / 2 ^ 31) % 2 == 1 then word else word + 2 ^ 31

-- `entry.sort_index < self._best_midpoint`
abbrev pub is_merged : (ℕ → ℕ) → Option ℕ → BitFieldData → Bool
is_merged sort_index_of none item = false
is_merged sort_index_of (some mid_point) item = ltb (sort_index_of item.identity) mid_point

-- The words that are written, with their addresses.
unfoldable pub merged_of : (ℕ → ℕ) → Option ℕ → List BitFieldData → List (ℕ × ℕ)
merged_of sort_index_of best_midpoint [] = []
merged_of sort_index_of best_midpoint (item ∷ items) =
    let rest = merged_of sort_index_of best_midpoint items in
    if is_merged sort_index_of best_midpoint item
    then (item.n_atoms_address, set_merged item.n_atoms_word) ∷ rest
    else rest

unfoldable pub remove_merged_bitfields_from_cores :
    (ℕ → ℕ) → Option ℕ → List (ℕ × List BitFieldData) → List (ℕ × ℕ)
remove_merged_bitfields_from_cores sort_index_of best_midpoint [] = []
remove_merged_bitfields_from_cores sort_index_of best_midpoint (entries ∷ by_key) =
    merged_of sort_index_of best_midpoint entries.1
    ++ remove_merged_bitfields_from_cores sort_index_of best_midpoint by_key
