-- ===== src/SystemRoutes/Tree.antt =====
-- The tree of links over which the chips of a board get their data, of `_SystemMulticastRoutingGenerator`
-- in spinn_front_end_common/interface/interface_functions/system_multicast_routing_generator.py. Chips
-- are numbers here; the machine, and the order in which a set's members are taken, are arguments.
use spi_nnfront_end_common.Common.{
  ℕ, zero, suc, Bool, true, false, not, ◌&&◌, Option, none, some, List, [], ◌∷◌, Result, ok, err,
  key_error, pacman_routing_exception, ◌==◌, if◌then◌else◌, length, ◌>>=◌, ◌>>◌, raise_if,
}
use spi_nnfront_end_common.Common.Maps.{assign}
use spi_nnfront_end_common.Common.Numbers.{add, update, member}

-- `destination` is `get_chip_at` of `xy_over_link`, `is_link` the chip's `router.is_link`.
pub record Machine : Type 0 where
  pub destination : ℕ → ℕ → Option ℕ
  pub is_link : ℕ → ℕ → Bool
  pub chips_by_ethernet : ℕ → List ℕ
  pub arrange : List ℕ → List ℕ

-- Each chip with the chip and the link from which it gets its data.
abbrev pub Tree : Type 0
Tree = List (ℕ × (ℕ × ℕ))

abbrev pub link_order : List ℕ
link_order = 1 ∷ 0 ∷ 2 ∷ 5 ∷ 3 ∷ 4 ∷ []

-- `s.remove(n)`, where `n` is in the set.
unfoldable pub discard : ℕ → List ℕ → List ℕ
discard n [] = []
discard n (m ∷ ms) = let rest = discard n ms in if n == m then rest else m ∷ rest

abbrev pub is_empty : List ℕ → Bool
is_empty [] = true
is_empty (n ∷ ns) = false

pub record Search : Type 0 where
  pub tree : Tree
  pub to_reach : List ℕ
  pub found : List ℕ

module _ (m : Machine) where
  abbrev pub try_destination : ℕ → ℕ → Option ℕ → Search → Search
  try_destination chip link none s = s
  try_destination chip link (some d) s =
      if member d s.to_reach && m.is_link chip link
      then record {
        tree = assign d (chip, link) s.tree;
        to_reach = discard d s.to_reach;
        found = add d s.found;
      }
      else s

  unfoldable pub try_links : ℕ → List ℕ → Search → Search
  try_links chip [] s = s
  try_links chip (link ∷ links) s =
      try_links chip links (try_destination chip link (m.destination chip link) s)

  unfoldable pub try_chips : List ℕ → Search → Search
  try_chips [] s = s
  try_chips (chip ∷ chips) s = try_chips chips (try_links chip link_order s)

  -- `just_reached, found = found, set()` and the loop over the chips.
  unfoldable pub try_just_reached : Search → Search
  try_just_reached s = try_chips (m.arrange s.found) (record s { found = [] })

  -- The loop `while to_reach`, of at most `rounds` rounds.
  unfoldable pub search : ℕ → Search → Option Tree
  search zero s = none
  search (suc rounds) s =
      let s' = try_just_reached s in
      let rest = search rounds s' in
      if is_empty s.to_reach then some s.tree else if is_empty s'.found then none else rest

  abbrev pub start_search : ℕ → Search
  start_search ethernet_chip = record {
    tree = [];
    to_reach = discard ethernet_chip (update (m.chips_by_ethernet ethernet_chip) []);
    found = ethernet_chip ∷ [];
  }

  -- A round that finds a chip leaves fewer to reach, so these are enough rounds.
  abbrev pub enough_rounds : ℕ → ℕ
  enough_rounds ethernet_chip = suc (length (start_search ethernet_chip).to_reach)

  unfoldable pub generate_routing_tree : ℕ → Result (Option Tree)
  generate_routing_tree ethernet_chip = do
    raise_if (not (member ethernet_chip (update (m.chips_by_ethernet ethernet_chip) []))) key_error
    ok (search (enough_rounds ethernet_chip) (start_search ethernet_chip))

  -- The same search again, with messages to the log, and an exception at its end.
  abbrev pub logging_retry : ℕ → Result Tree
  logging_retry ethernet_chip = do found ← generate_routing_tree ethernet_chip; found_or_raise found
    where
      found_or_raise : Option Tree → Result Tree
      found_or_raise none = err pacman_routing_exception
      found_or_raise (some tree) = ok tree

  -- The tree of `generate_system_routes` for a board.
  unfoldable pub tree_of_board : ℕ → Result Tree
  tree_of_board ethernet_chip = do tree ← generate_routing_tree ethernet_chip; tree_or_retry tree
    where
      tree_or_retry : Option Tree → Result Tree
      tree_or_retry none = logging_retry ethernet_chip
      tree_or_retry (some tree) = ok tree
