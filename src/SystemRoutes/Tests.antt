-- ===== src/SystemRoutes/Tests.antt =====
-- Boards of four chips in a square, numbered by row, and the theorems at them.
use spi_nnfront_end_common.Common.{
  List, Result, ◌++◌, ℕ, ◌+◌, ◌≡◌, refl, ◌⊎◌, true, not, ◌==◌, ◌&&◌, ◌||◌, if◌then◌else◌, Option,
  none, some, [], ◌∷◌, ok, err, pacman_routing_exception,
}
use spi_nnfront_end_common.Common.Maps.{lookup, assign}
use spi_nnfront_end_common.Common.Numbers.{add, update, member}
use spi_nnfront_end_common.SystemRoutes.Tree.{
  Machine, Tree, discard, try_links, try_chips, try_just_reached, search, generate_routing_tree,
  tree_of_board,
}
use spi_nnfront_end_common.SystemRoutes.Routed.{IsRouted}
use spi_nnfront_end_common.SystemRoutes.Rounds.{Arranges, IsReachable}
use spi_nnfront_end_common.Router.Merge.{Appends, RoutingEntry}
use spi_nnfront_end_common.SystemRoutes.Entries.{Routes, add_routing_entries}
use spi_nnfront_end_common.SystemRoutes.Delivered.{Arrives}
use spi_nnfront_end_common.SystemRoutes.Broadcast.{IsDistinct}
use spi_nnfront_end_common.SystemRoutes.Reaching.{add_routing_entries-IsDelivered}
use spi_nnfront_end_common.SystemRoutes.Board.{tree_of_board-IsRouted}

-- Link 0 leads right and link 2 up.
abbrev square : ℕ → ℕ → Option ℕ
square chip link =
    if chip == 0 && link == 0
    then some 1
    else if chip == 0 && link == 2
    then some 2
    else if (chip == 1 && link == 2) || (chip == 2 && link == 0)
    then some 3
    else none

abbrev board : Machine
board = record {
  destination = square;
  is_link = λ chip link. not (chip == 0);
  chips_by_ethernet = λ chip. 0 ∷ 1 ∷ 2 ∷ 3 ∷ [];
  arrange = λ ns. ns;
}

abbrev working_board : Machine
working_board = record board { is_link = λ chip link. true }

board-Arranges : Arranges board
board-Arranges ns n = refl

working_board-Arranges : Arranges working_board
working_board-Arranges ns n = refl

-- From the Ethernet chip over link 0 and link 2, then from chip 1 over link 2.
tree_of_board_test :
    tree_of_board working_board 0 ≡ ok ((1, (0, 0)) ∷ (2, (0, 2)) ∷ (3, (1, 2)) ∷ [])
unfolding tree_of_board generate_routing_tree search try_just_reached try_chips try_links member add
    update discard assign
tree_of_board_test = refl

-- The links of the Ethernet chip are down.
tree_of_board_down : tree_of_board board 0 ≡ err pacman_routing_exception
unfolding tree_of_board generate_routing_tree search try_just_reached try_chips try_links member add
    update discard assign
tree_of_board_down = refl

on_its_board : member 0 (working_board.chips_by_ethernet 0) ≡ true
unfolding member
on_its_board = refl

tree_of_board-IsRouted_example :
    ((tree : Tree) × (tree_of_board working_board 0 ≡ ok tree)
      × (lookup 0 tree ≡ none)
      × ((d : ℕ)
          → member d (working_board.chips_by_ethernet 0) ≡ true
          → IsRouted working_board 0 tree d))
    ⊎ ((tree_of_board working_board 0 ≡ err pacman_routing_exception)
        × ((d : ℕ) × (member d (working_board.chips_by_ethernet 0) ≡ true)
            × (¬ (IsReachable working_board 0 d))))
tree_of_board-IsRouted_example =
    tree_of_board-IsRouted working_board 0 working_board-Arranges on_its_board

abbrev append_entry : RoutingEntry → List RoutingEntry → Result (List RoutingEntry)
append_entry e table = ok (table ++ e ∷ [])

append_entry-Appends : Appends append_entry
append_entry-Appends e table h = refl

abbrev no_routes : Routes
no_routes = record { routing_tables = []; key_to_destination_map = []; time_out_keys_by_board = [] }

chips-IsDistinct : IsDistinct (working_board.chips_by_ethernet 0)
unfolding member
chips-IsDistinct = (refl, (refl, (refl, (refl, tt))))

no_table : (c : ℕ) → lookup c no_routes.routing_tables ≡ none
unfolding lookup
no_table c = refl

add_routing_entries-IsDelivered_example :
    (r' : Routes) × (add_routing_entries append_entry
        (λ chip. chip + 1)
        working_board
        0
        ((1, (0, 0)) ∷ (2, (0, 2)) ∷ (3, (1, 2)) ∷ [])
        no_routes
      ≡ ok r')
    × ((d : ℕ)
        → member d (working_board.chips_by_ethernet 0) ≡ true
        → (key : ℕ) × (lookup d r'.key_to_destination_map ≡ some key)
          × Arrives working_board r'.routing_tables key 0 d (d + 1))
add_routing_entries-IsDelivered_example =
    add_routing_entries-IsDelivered append_entry (λ chip. chip + 1) working_board 0
      ((1, (0, 0)) ∷ (2, (0, 2)) ∷ (3, (1, 2)) ∷ []) no_routes append_entry-Appends
      working_board-Arranges chips-IsDistinct on_its_board tree_of_board_test (λ c _. no_table c)
