-- ===== src/Monitor/Tests.antt =====
-- A status in a response, two cores, and the theorems at them.
use spi_nnfront_end_common.Common.{
  Result, data_spec_exception, ◌≤◌, ◌==◌, if◌then◌else◌, ℕ, ◌+◌, ◌*◌, ◌<◌, ◌≡◌, refl, true, false,
  none, some, List, [], ◌∷◌, ◌++◌, ok, err, struct_error, ◌&&◌, length, arith,
}
use spi_nnfront_end_common.Common.Numbers.{add, update, member}
use spi_nnfront_end_common.Common.Words.{Bytes, words_bytes}
use spi_nnfront_end_common.Monitor.Status.{
  ReinjectionStatus, read_status, flag_set, nearest_neighbour, numbers_where, links_dropped_from,
  processors_dropped_from,
}
use spi_nnfront_end_common.Monitor.Control.{
  CoreSubset, Monitor, set_reinjection_packets, to_processors, to_core_subsets,
  set_packet_types_message,
}
use spi_nnfront_end_common.Monitor.Reported.{status_words, read_status-status_words}
use spi_nnfront_end_common.Common.Maps.{lookup, assign}
use spi_nnfront_end_common.Dsg.Generator.{Generator, new_generator}
use spi_nnfront_end_common.Router.Merge.{Appends, RoutingEntry}
use spi_nnfront_end_common.SystemRoutes.Tree.{
  Machine, tree_of_board, generate_routing_tree, search, try_just_reached, try_chips, try_links,
  discard,
}
use spi_nnfront_end_common.SystemRoutes.Rounds.{Arranges}
use spi_nnfront_end_common.SystemRoutes.Entries.{Routes, add_routing_entries}
use spi_nnfront_end_common.SystemRoutes.Delivered.{Arrives}
use spi_nnfront_end_common.SystemRoutes.Broadcast.{IsDistinct}
use spi_nnfront_end_common.Monitor.Config.{generate_monitor_specification}
use spi_nnfront_end_common.Monitor.Written.{
  IsWritable, IsConfigured, generate_monitor_specification-IsConfigured,
}
use spi_nnfront_end_common.Monitor.Board.{board-IsConfigured}

-- The links 0 and 2 and the processor 1.
abbrev reported : ReinjectionStatus
reported = record {
  wait1_timeout = 0x4F;
  wait2_timeout = 0xE1;
  n_dropped_packets = 9;
  n_missed_dropped_packets = 1;
  n_dropped_packet_overflows = 2;
  n_reinjected_packets = 7;
  n_link_dumps = 3;
  n_processor_dumps = 4;
  flags = 5;
  link_proc_bits = 0x85;
}

links_dropped_from_test : links_dropped_from reported ≡ 0 ∷ 2 ∷ []
unfolding links_dropped_from numbers_where
links_dropped_from_test = refl

processors_dropped_from_test : processors_dropped_from reported ≡ 1 ∷ []
unfolding processors_dropped_from numbers_where
processors_dropped_from_test = refl

flag_set_test : flag_set nearest_neighbour reported ≡ true
unfolding flag_set
flag_set_test = refl

abbrev settings : Monitor
settings = record {
  reinject_multicast = true;
  reinject_point_to_point = false;
  reinject_nearest_neighbour = false;
  reinject_fixed_route = true;
}

abbrev two_cores : List CoreSubset
two_cores = record { chip_x = 0; chip_y = 1; processor_ids = 2 ∷ 3 ∷ [] } ∷ []

-- Only multicast changes.
set_reinjection_packets_test :
    set_reinjection_packets none (some false) none none two_cores settings ≡ (
      record settings { reinject_multicast = false },
      set_packet_types_message (record settings { reinject_multicast = false }) 0 1 2
          ∷ set_packet_types_message (record settings { reinject_multicast = false }) 0 1 3
          ∷ [],
    )
unfolding set_reinjection_packets to_core_subsets to_processors
set_reinjection_packets_test = refl

-- A response whose data starts at byte 2.
read_status-status_words_example :
    (read_status ((0 ∷ 1 ∷ []) ++ words_bytes (status_words reported) ++ (9 ∷ [])) 2 ≡ ok reported)
    × ((bytes : Bytes) (offset : ℕ)
        → length bytes < offset + 4 * length (status_words reported)
        → read_status bytes offset ≡ err struct_error)
read_status-status_words_example = read_status-status_words (0 ∷ 1 ∷ []) (9 ∷ []) reported (
  omega arith,
  (
    omega arith,
    (
      omega arith,
      (
        omega arith,
        (
          omega arith,
          (omega arith, (omega arith, (omega arith, (omega arith, (omega arith, tt))))),
        ),
      ),
    ),
  ),
)

-- Two chips, of which link 0 leads from the first to the second.
abbrev pair : Machine
pair = record {
  destination = λ chip link. if chip == 0 && link == 0 then some 1 else none;
  is_link = λ chip link. true;
  chips_by_ethernet = λ chip. 0 ∷ 1 ∷ [];
  arrange = λ ns. ns;
}

pair-Arranges : Arranges pair
pair-Arranges ns n = refl

abbrev append_entry : RoutingEntry → List RoutingEntry → Result (List RoutingEntry)
append_entry e table = ok (table ++ e ∷ [])

append_entry-Appends : Appends append_entry
append_entry-Appends e table h = refl

pair_tree : tree_of_board pair 0 ≡ ok ((1, (0, 0)) ∷ [])
unfolding tree_of_board generate_routing_tree search try_just_reached try_chips try_links member add
    update discard assign
pair_tree = refl

pair-IsDistinct : IsDistinct (pair.chips_by_ethernet 0)
unfolding member
pair-IsDistinct = (refl, (refl, tt))

ethernet_chip_on_board : member 0 (pair.chips_by_ethernet 0) ≡ true
unfolding member
ethernet_chip_on_board = refl

abbrev no_routes : Routes
no_routes = record { routing_tables = []; key_to_destination_map = []; time_out_keys_by_board = [] }

no_table : (c : ℕ) → lookup c no_routes.routing_tables ≡ none
unfolding lookup
no_table c = refl

board-IsConfigured_example :
    (r' : Routes) × (add_routing_entries append_entry
        (λ chip. 1)
        pair
        0
        ((1, (0, 0)) ∷ [])
        no_routes
      ≡ ok r')
    × ((d : ℕ) (chosen : Monitor)
        → member d (pair.chips_by_ethernet 0) ≡ true
        → (g : Generator) × (key board_key : ℕ) × (table : List RoutingEntry)
          × (generate_monitor_specification (λ e. 5) 0 r' d 0 chosen (new_generator []) ≡ ok g)
          × (lookup d r'.routing_tables ≡ some table)
          × (lookup 0 r'.time_out_keys_by_board ≡ some board_key)
          × IsConfigured (λ e. 5) 0 chosen board_key key table g.regions
          × Arrives pair r'.routing_tables key 0 d 1)
board-IsConfigured_example =
    board-IsConfigured append_entry (λ e. 5) 0 (λ chip. 1) pair 0 ((1, (0, 0)) ∷ []) no_routes
      append_entry-Appends (λ e. omega arith) pair-Arranges (omega arith) pair-IsDistinct
      ethernet_chip_on_board pair_tree (λ c _. no_table c)

-- One chip has a key and a table of one entry.
abbrev one_entry : RoutingEntry
one_entry = record {
  routing_entry_key = 8;
  mask = 0xFFFFFFF8;
  link_ids = [];
  processor_ids = 1 ∷ [];
  defaultable = false;
}

abbrev one_route : Routes
one_route = record {
  routing_tables = (0, one_entry ∷ []) ∷ [];
  key_to_destination_map = (0, 8) ∷ [];
  time_out_keys_by_board = (0, 16) ∷ [];
}

abbrev one_route_writable : IsWritable (λ e. 5) 0 one_route 0 0
unfolding lookup
one_route_writable = record {
  board_key = 16;
  chip_key = 8;
  entries = one_entry ∷ [];
  has_board_key = refl;
  has_chip_key = refl;
  has_table = refl;
  board_key_fits = omega arith;
  chip_key_fits = omega arith;
  table_fits = omega arith;
  entries_fit = ((omega arith, omega arith, omega arith), tt);
}

generate_monitor_specification-IsConfigured_example :
    (length one_route_writable.entries ≤ 49
      → (g : Generator) × (generate_monitor_specification
            (λ e. 5)
            0
            one_route
            0
            0
            settings
            (new_generator [])
          ≡ ok g)
        × IsConfigured (λ e. 5) 0 settings 16 8 (one_entry ∷ []) g.regions)
    × (49 < length one_route_writable.entries
        → generate_monitor_specification (λ e. 5) 0 one_route 0 0 settings (new_generator [])
          ≡ err data_spec_exception)
unfolding one_route_writable
generate_monitor_specification-IsConfigured_example =
    generate_monitor_specification-IsConfigured (λ e. 5) 0 one_route 0 0 settings one_route_writable
