-- ===== src/SystemRoutes/Entries.antt =====
-- The routing entries along the tree of a board (spinn_front_end_common/interface/
-- interface_functions/system_multicast_routing_generator.py). The `add` of a routing table and the
-- processor of each chip's monitor are arguments.
use spi_nnfront_end_common.Common.{
  ℕ, zero, suc, ◌+◌, false, none, some, List, [], ◌∷◌, Result, ok, ◌==◌, if◌then◌else◌, length,
  ◌>>=◌,
}
use spi_nnfront_end_common.Common.Maps.{lookup, assign}
use spi_nnfront_end_common.Router.Bitfields.{or_empty}
use spi_nnfront_end_common.Router.Merge.{RoutingEntry}
use spi_nnfront_end_common.SystemRoutes.Tree.{Machine, Tree, tree_of_board}

-- ROUTING_MASK
abbrev pub routing_mask : ℕ
routing_mask = 0xFFFFFFF8

abbrev pub key_start_value : ℕ
key_start_value = 8

abbrev pub n_keys_per_partition_id : ℕ
n_keys_per_partition_id = 8

-- The routing table of each chip that has one.
abbrev pub Tables : Type 0
Tables = List (ℕ × List RoutingEntry)

abbrev pub entry_for : ℕ → List ℕ → List ℕ → RoutingEntry
entry_for key processor_ids link_ids = record {
  routing_entry_key = key;
  mask = routing_mask;
  link_ids = link_ids;
  processor_ids = processor_ids;
  defaultable = false;
}

-- The chips that give data to others, with the links: `links_per_chip[chip]`.
unfoldable pub links_per_chip : ℕ → Tree → List ℕ
links_per_chip chip [] = []
links_per_chip chip ((destination, (source, link)) ∷ tree) =
    let rest = links_per_chip chip tree in if source == chip then link ∷ rest else rest

pub record Routes : Type 0 where
  pub routing_tables : Tables
  pub key_to_destination_map : List (ℕ × ℕ)
  pub time_out_keys_by_board : List (ℕ × ℕ)

module _ (add_entry : RoutingEntry → List RoutingEntry → Result (List RoutingEntry)) where
  unfoldable pub add_routing_entry : ℕ → ℕ → List ℕ → List ℕ → Tables → Result Tables
  add_routing_entry chip key processor_ids link_ids tables = do
    table ← add_entry (entry_for key processor_ids link_ids) (or_empty (lookup chip tables))
    ok (assign chip table tables)

  -- The loop `while chip in tree`, of at most `rounds` rounds.
  unfoldable pub add_way : ℕ → Tree → ℕ → ℕ → Tables → Result Tables
  add_way zero tree chip key tables = ok tables
  add_way (suc rounds) tree chip key tables = elim (lookup chip tree) [
    | none ↦ ok tables
    | some source ↦ do
      more ← add_routing_entry source.0 key [] (source.1 ∷ []) tables
      add_way rounds tree source.0 key more
  ]

  module _ (monitor : ℕ → ℕ) where
    -- The first loop over the chips of the board, and the key after it.
    unfoldable pub add_destinations : Tree → List ℕ → ℕ → Routes → Result (ℕ × Routes)
    add_destinations tree [] key r = ok (key, r)
    add_destinations tree (chip ∷ chips) key r = do
      local ← add_routing_entry chip key (monitor chip ∷ []) [] r.routing_tables
      tables ← add_way (length tree) tree chip key local
      add_destinations tree chips (key + n_keys_per_partition_id) (record r {
        routing_tables = tables;
        key_to_destination_map = assign chip key r.key_to_destination_map;
      })

    -- The second, with the key for all of them.
    unfoldable pub add_broadcast : Tree → ℕ → List ℕ → ℕ → Routes → Result Routes
    add_broadcast tree ethernet_chip [] key r = ok r
    add_broadcast tree ethernet_chip (chip ∷ chips) key r = do
      tables ←
          add_routing_entry chip key (monitor chip ∷ []) (links_per_chip chip tree) r.routing_tables
      add_broadcast tree ethernet_chip chips key (record r {
        routing_tables = tables;
        time_out_keys_by_board = assign ethernet_chip key r.time_out_keys_by_board;
      })

    unfoldable pub add_routing_entries : Machine → ℕ → Tree → Routes → Result Routes
    add_routing_entries m ethernet_chip tree r = do
      (key, added) ← add_destinations tree (m.chips_by_ethernet ethernet_chip) key_start_value r
      add_broadcast tree ethernet_chip (m.chips_by_ethernet ethernet_chip) key added

    -- The loop of `generate_system_routes` over the Ethernet chips.
    unfoldable pub generate_for : Machine → List ℕ → Routes → Result Routes
    generate_for m [] r = ok r
    generate_for m (ethernet_chip ∷ ethernet_chips) r = do
      tree ← tree_of_board m ethernet_chip
      more ← add_routing_entries m ethernet_chip tree r
      generate_for m ethernet_chips more
