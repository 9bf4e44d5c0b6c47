-- ===== src/Monitor/Config.antt =====
-- The data specification of a monitor (spinn_front_end_common/utility_models/
-- extra_monitor_support_machine_vertex.py). The routes are those of the system multicast routing
-- generator; how an entry's links and processors make the word of a route is another package's code,
-- and an argument.
use Prim.Native.Nat.{bit_or}
use spi_nnfront_end_common.Common.{
  ℕ, ◌+◌, ◌*◌, ◌^◌, not, Option, none, some, List, [], ◌∷◌, Result, ok, err, key_error, length,
  ◌>>=◌,
}
use spi_nnfront_end_common.Common.Maps.{lookup}
use spi_nnfront_end_common.Dsg.Generator.{
  Generator, asserted, reserve_memory_region, switch_write_focus, end_specification,
}
use spi_nnfront_end_common.Commands.Spec.{write_uint32}
use spi_nnfront_end_common.Router.Merge.{RoutingEntry}
use spi_nnfront_end_common.SystemRoutes.Entries.{Routes}
use spi_nnfront_end_common.Monitor.Control.{Monitor, bool_value}

-- `spec.write_value` for one value after the other.
unfoldable pub write_values : List ℕ → Generator → Result Generator
write_values [] g = ok g
write_values (w ∷ ws) g = do g' ← write_uint32 w g; write_values ws g'

-- `keys[…]`
abbrev pub key_or_error : Option ℕ → Result ℕ
key_or_error none = err key_error
key_or_error (some key) = ok key

abbrev pub inverted_settings : Monitor → List ℕ
inverted_settings m =
    bool_value (not m.reinject_multicast)
    ∷ bool_value (not m.reinject_point_to_point)
    ∷ bool_value (not m.reinject_fixed_route)
    ∷ bool_value (not m.reinject_nearest_neighbour)
    ∷ []

-- `int(not value)` of each setting, then the key of the chip's board.
unfoldable pub generate_reinjection_config : Option ℕ → Monitor → Generator → Result Generator
generate_reinjection_config router_timeout_key m g = do
  g1 ← reserve_memory_region 0 (5 * 4) none g
  g2 ← switch_write_focus 0 g1
  g3 ← write_values (inverted_settings m) g2
  key ← key_or_error router_timeout_key
  write_uint32 key g3

-- The keys of the data speed-up packet gatherer: base, new sequence, first data, transaction, end.
abbrev pub gatherer_keys : List ℕ
gatherer_keys = 0xFFFFFFF9 ∷ 0xFFFFFFF8 ∷ 0xFFFFFFF7 ∷ 0xFFFFFFF5 ∷ 0xFFFFFFF6 ∷ []

unfoldable pub generate_data_speed_up_out_config : Generator → Result Generator
generate_data_speed_up_out_config g = do
  g1 ← reserve_memory_region 1 (5 * 4) none g
  g2 ← switch_write_focus 1 g1
  write_values gatherer_keys g2

-- _MAX_DATA_SIZE_FOR_DATA_IN_MULTICAST_ROUTING + _CONFIG_DATA_IN_KEYS_SDRAM_IN_BYTES
abbrev pub data_in_config_size : ℕ
data_in_config_size = (49 * 3 + 1) * 4 + 3 * 4

module _ (to_route : RoutingEntry → ℕ) (app_id : ℕ) where
  abbrev pub encode_route : RoutingEntry → ℕ
  encode_route entry = bit_or (app_id * 2 ^ 24) (to_route entry)

  -- The loop over the entries of the table.
  unfoldable pub write_entries : List RoutingEntry → Generator → Result Generator
  write_entries [] g = ok g
  write_entries (entry ∷ entries) g = do
    g' ← write_values (entry.routing_entry_key ∷ entry.mask ∷ encode_route entry ∷ []) g
    write_entries entries g'

  unfoldable pub generate_data_speed_up_in_config :
      Option ℕ → Option (List RoutingEntry) → Generator → Result Generator
  generate_data_speed_up_in_config key table g = do
    g1 ← reserve_memory_region 2 data_in_config_size none g
    g2 ← switch_write_focus 2 g1
    base_key ← key_or_error key
    g3 ← write_values (base_key ∷ (base_key + 1) ∷ (base_key + 2) ∷ []) g2
    entries ← asserted table
    g4 ← write_uint32 (length entries) g3
    write_entries entries g4

  abbrev pub generate_provenance_area : Generator → Result Generator
  generate_provenance_area g = reserve_memory_region 3 16 none g

  -- For the monitor of a chip, with the Ethernet chip of its board.
  unfoldable pub generate_monitor_specification :
      Routes → ℕ → ℕ → Monitor → Generator → Result Generator
  generate_monitor_specification r chip ethernet_chip m g = do
    g1 ← generate_reinjection_config (lookup ethernet_chip r.time_out_keys_by_board) m g
    g2 ← generate_data_speed_up_out_config g1
    g3 ←
        generate_data_speed_up_in_config (lookup chip r.key_to_destination_map)
          (lookup chip r.routing_tables) g2
    g4 ← generate_provenance_area g3
    end_specification g4
