-- ===== src/Router/Compress.antt =====
-- One chip (`compress_bitfields` of spinn_front_end_common/interface/interface_functions/
-- host_bit_field_router_compressor.py): reading, ordering, searching and marking. The report and the
-- provenance are left out.
use spi_nnfront_end_common.Common.{ℕ, Bool, List, Result, ok, ◌>>=◌}
use spi_nnfront_end_common.Router.Bitfields.{Read, nothing_read, read_cores}
use spi_nnfront_end_common.Router.Order.{Sorting, order_bit_fields}
use spi_nnfront_end_common.Router.Merge.{
  RoutingEntry, Best, convert_bitfields_into_router_table, start_binary_search,
  remove_merged_bitfields_from_cores,
}

-- What other packages provide.
pub record Packages (RTEntry : Type 0) : Type 0 where
  pub add_entry : RoutingEntry → List RoutingEntry → Result (List RoutingEntry)
  pub compress_table : List RoutingEntry → Result (List RTEntry)
  pub find_max_success :
      ℕ → (ℕ → Best RTEntry → Result (Best RTEntry × Bool)) → Best RTEntry → Result (Best RTEntry)

-- The chip: its memory, the cores with the base addresses of their bit fields, what each core costs,
-- and the number of its processors.
pub record Chip : Type 0 where
  pub memory : ℕ → ℕ
  pub base_addresses : List (ℕ × ℕ)
  pub core_cost_map : List (ℕ × ℕ)
  pub n_placable_processors : ℕ

abbrev pub read_of : Chip → Read
read_of chip = read_cores chip.memory chip.base_addresses nothing_read

abbrev pub order_of : Chip → Sorting
order_of chip = order_bit_fields chip.core_cost_map (read_of chip)

module _ {RTEntry : Type 0} (packages : Packages RTEntry) (key_atom_map : List (ℕ × ℕ))
    (chip : Chip) where
  abbrev pub converted : List RoutingEntry → ℕ → Result (List RoutingEntry)
  converted router_table mid_point =
      convert_bitfields_into_router_table packages.add_entry key_atom_map
        (read_of chip).bit_fields_by_key (order_of chip).sort_index_of router_table mid_point

  -- The best table, and the words that are written with their addresses.
  unfoldable pub compress_bitfields : List RoutingEntry → Result (Best RTEntry × List (ℕ × ℕ))
  compress_bitfields router_table = do
    best ←
        start_binary_search packages.compress_table chip.n_placable_processors
          packages.find_max_success (converted router_table) router_table (order_of chip).sort_index
    ok (
      best,
      remove_merged_bitfields_from_cores (order_of chip).sort_index_of best.best_midpoint
          (read_of chip).bit_fields_by_key,
    )
