-- ===== src/Monitor/Reader.antt =====
-- The regions as the monitor's core reads them (c_common/models/system_models/src/
-- extra_monitor_support.c).
use spi_nnfront_end_common.Common.{
  ℕ, zero, suc, ◌/◌, not, List, [], ◌∷◌, Result, ok, err, struct_error, ◌==◌, length, ◌>>=◌,
}
use spi_nnfront_end_common.Common.Words.{Bytes, unpack_words}
use spi_nnfront_end_common.Router.Merge.{RoutingEntry}
use spi_nnfront_end_common.Monitor.Control.{Monitor}
use spi_nnfront_end_common.Monitor.Config.{encode_route}

-- `reinject_config_t`, and what `reinjection_read_packet_types` makes of it: a flag of 1 switches off.
abbrev pub read_packet_types : List ℕ → Result (Monitor × ℕ)
read_packet_types (mc ∷ pp ∷ fr ∷ nn ∷ key ∷ []) = ok (
  record {
    reinject_multicast = not (mc == 1);
    reinject_point_to_point = not (pp == 1);
    reinject_nearest_neighbour = not (nn == 1);
    reinject_fixed_route = not (fr == 1);
  },
  key,
)
read_packet_types _ = err struct_error

-- `router_entry_t`
pub record RouterEntry : Type 0 where
  pub key : ℕ
  pub mask : ℕ
  pub route : ℕ

-- `data_in_data_items_t`
pub record DataInItems : Type 0 where
  pub address_mc_key : ℕ
  pub data_mc_key : ℕ
  pub boundary_mc_key : ℕ
  pub system_router_entries : List RouterEntry

unfoldable pub router_entries_from : ℕ → List ℕ → Result (List RouterEntry)
router_entries_from zero ws = ok []
router_entries_from (suc n) (k ∷ m ∷ r ∷ ws) = do
  rest ← router_entries_from n ws
  ok (record { key = k; mask = m; route = r } ∷ rest)
router_entries_from (suc n) _ = err struct_error

abbrev pub read_data_in : List ℕ → Result DataInItems
read_data_in (a ∷ d ∷ b ∷ n ∷ ws) = do
  entries ← router_entries_from n ws
  ok (record {
    address_mc_key = a;
    data_mc_key = d;
    boundary_mc_key = b;
    system_router_entries = entries;
  })
read_data_in _ = err struct_error

-- The words of a block.
abbrev pub words_of : Bytes → Result (List ℕ)
words_of bytes = unpack_words (length bytes / 4) bytes

-- An entry as the core has it.
abbrev pub router_entry : (RoutingEntry → ℕ) → ℕ → RoutingEntry → RouterEntry
router_entry to_route app_id e = record {
  key = e.routing_entry_key;
  mask = e.mask;
  route = encode_route to_route app_id e;
}
