-- ===== src/Monitor/Board.antt =====
-- From the routes of a board to what its monitors are told of them.
use spi_nnfront_end_common.Common.{
  ℕ, ◌+◌, ◌*◌, ◌^◌, ◌≤◌, ◌<◌, ◌≡◌, true, none, some, List, [], Result, ok, length, All-imp, arith,
}
use spi_nnfront_end_common.Common.Maps.{lookup}
use spi_nnfront_end_common.Common.Numbers.{member}
use spi_nnfront_end_common.Dsg.Generator.{Generator, new_generator}
use spi_nnfront_end_common.Router.Merge.{Appends, RoutingEntry}
use spi_nnfront_end_common.SystemRoutes.Tree.{Machine, Tree, tree_of_board}
use spi_nnfront_end_common.SystemRoutes.Routed.{IsRouted}
use spi_nnfront_end_common.SystemRoutes.Rounds.{Arranges}
use spi_nnfront_end_common.SystemRoutes.Entries.{Routes, add_routing_entries}
use spi_nnfront_end_common.SystemRoutes.Delivered.{Arrives}
use spi_nnfront_end_common.SystemRoutes.Way.{InRange}
use spi_nnfront_end_common.SystemRoutes.Broadcast.{IsDistinct}
use spi_nnfront_end_common.SystemRoutes.Reaching.{IsServedChip, add_routing_entries-IsServedChip}
use spi_nnfront_end_common.Monitor.Control.{Monitor}
use spi_nnfront_end_common.Monitor.Config.{encode_route, generate_monitor_specification}
use spi_nnfront_end_common.Monitor.Entries.{IsEntry}
use spi_nnfront_end_common.Monitor.Written.{
  IsWritable, IsConfigured, generate_monitor_specification-IsConfigured,
}

-- The words of routes have no more than 32 bits.
abbrev pub IsRouteCode : (RoutingEntry → ℕ) → ℕ → Type 0
IsRouteCode to_route app_id = (e : RoutingEntry) → encode_route to_route app_id e < 2 ^ 32

abbrev writable_of :
    (to_route : RoutingEntry → ℕ) (app_id : ℕ) (monitor : ℕ → ℕ) (m : Machine) (root n : ℕ)
    (r : Routes) (d : ℕ)
    → IsRouteCode to_route app_id
    → n ≤ 48
    → lookup root r.time_out_keys_by_board ≡ some (8 + 8 * n)
    → IsServedChip monitor m root n r d
    → IsWritable to_route app_id r d root
writable_of to_route app_id monitor m root n r d codes few board_key s = record {
  board_key = 8 + 8 * n;
  chip_key = s.key;
  entries = s.table;
  has_board_key = board_key;
  has_chip_key = s.has_key;
  has_table = s.in_tables;
  board_key_fits = omega arith;
  chip_key_fits = omega (arith, s.low);
  table_fits = omega (arith, s.few);
  entries_fit =
      All-imp (InRange (9 + 8 * n)) (IsEntry to_route app_id)
        (λ x h. (omega (arith, h.0), h.1, codes x)) s.table s.in_range;
}

-- Where the table's `add` appends entries with new keys, the words of routes have no more than 32 bits,
-- the order in which a set's members are taken has the members of the set, the board has no more than
-- 48 chips, all different and the Ethernet chip among them, the search has found a tree, and no chip to
-- which it leads has a routing table yet: adding the routing entries returns. Then the specification of
-- the monitor of each chip of the board is written without an exception, and its core reads from it
-- the monitor's settings with the key of the board, the entries of the chip's table, and the key with
-- which packets from the Ethernet chip are led to this monitor, as are those with the seven keys after
-- it: on each chip of the way an entry matches them and names the working link or the processor.
pub board-IsConfigured :
    (add_entry : RoutingEntry → List RoutingEntry → Result (List RoutingEntry))
    (to_route : RoutingEntry → ℕ) (app_id : ℕ) (monitor : ℕ → ℕ) (m : Machine) (root : ℕ)
    (tree : Tree) (r : Routes)
    → Appends add_entry
    → IsRouteCode to_route app_id
    → Arranges m
    → length (m.chips_by_ethernet root) ≤ 48
    → IsDistinct (m.chips_by_ethernet root)
    → member root (m.chips_by_ethernet root) ≡ true
    → tree_of_board m root ≡ ok tree
    → ((c : ℕ) → IsRouted m root tree c → lookup c r.routing_tables ≡ none)
    → (r' : Routes) × (add_routing_entries add_entry monitor m root tree r ≡ ok r')
      × ((d : ℕ) (settings : Monitor)
          → member d (m.chips_by_ethernet root) ≡ true
          → (g : Generator) × (key board_key : ℕ) × (table : List RoutingEntry)
            × (generate_monitor_specification to_route app_id r' d root settings (new_generator [])
                ≡ ok g)
            × (lookup d r'.routing_tables ≡ some table)
            × (lookup root r'.time_out_keys_by_board ≡ some board_key)
            × IsConfigured to_route app_id settings board_key key table g.regions
            × Arrives m r'.routing_tables key root d (monitor d))
board-IsConfigured add_entry to_route app_id monitor m root tree r appends codes arranges few
      distinct there returns no_tables =
    let n = length (m.chips_by_ethernet root) in
    let (r', ran, board_key, served) =
      add_routing_entries-IsServedChip add_entry monitor m root tree r appends arranges distinct
        there returns no_tables in
    (
      r',
      ran,
      λ d settings on_board.
          let s = served d on_board in
          let v = writable_of to_route app_id monitor m root n r' d codes few board_key s in
          let (fits, _) =
            generate_monitor_specification-IsConfigured to_route app_id r' d root settings v in
          let (g, written, configured) = fits (omega (arith, s.few, few)) in
          (g, s.key, 8 + 8 * n, s.table, written, s.in_tables, board_key, configured, s.arrives),
    )
