-- ===== src/SystemRoutes/Reaching.antt =====
-- All entries of a board are added, and deliver what is sent with a chip's key to the chip's monitor.
use spi_nnfront_end_common.Common.{
  Option-cases, All, inl, inr, ◌*◌, ◌≤◌, ℕ, ◌+◌, ◌<◌, ◌≡◌, refl, sym, ap, ◌∙◌, true, none, some,
  List, [], ◌∷◌, Result, ok, length, All-imp, arith,
}
use spi_nnfront_end_common.Common.Maps.{lookup}
use spi_nnfront_end_common.Common.Numbers.{member}
use spi_nnfront_end_common.Router.Merge.{Appends, RoutingEntry}
use spi_nnfront_end_common.SystemRoutes.Tree.{Machine, Tree, tree_of_board}
use spi_nnfront_end_common.SystemRoutes.Routed.{IsRouted, start}
use spi_nnfront_end_common.SystemRoutes.Rounds.{Arranges}
use spi_nnfront_end_common.SystemRoutes.Board.{tree_of_board-IsBoardTree}
use spi_nnfront_end_common.SystemRoutes.Entries.{Tables, Routes, add_routing_entries}
use spi_nnfront_end_common.SystemRoutes.Delivered.{
  Among, entries_at, Arrives, local, hop, Arrives-Keeps,
}
use spi_nnfront_end_common.SystemRoutes.Way.{InRange, Below, Below-IsFree}
use spi_nnfront_end_common.SystemRoutes.Destinations.{add_destinations_lem}
use spi_nnfront_end_common.SystemRoutes.Broadcast.{IsDistinct, add_broadcast_lem}

All-Among :
    (P : RoutingEntry → Type 0) (e : RoutingEntry) (xs : List RoutingEntry)
    → All P xs
    → Among e xs
    → P e
All-Among P e [] all h = absurd h
All-Among P e (x ∷ xs) all (inl same) = rw (sym same) all.0
All-Among P e (x ∷ xs) all (inr later) = All-Among P e xs all.1 later

-- The first entry on the way of a packet, and the last.
Arrives-first :
    (m : Machine) (tables : Tables) (key c d p : ℕ)
    → Arrives m tables key c d p
    → (e : RoutingEntry) × Among e (entries_at c tables) × (e.routing_entry_key ≡ key)
Arrives-first m tables key c d p (local _ _ e among same has) = (e, among, same.0)
Arrives-first m tables key c d p (hop _ l next _ _ e among same has leads works rest) =
    (e, among, same.0)

Arrives-last :
    (m : Machine) (tables : Tables) (key c d p : ℕ)
    → Arrives m tables key c d p
    → (e : RoutingEntry) × Among e (entries_at d tables)
Arrives-last m tables key c d p (local _ _ e among same has) = (e, among)
Arrives-last m tables key c d p (hop _ l next _ _ e among same has leads works rest) =
    Arrives-last m tables key next d p rest

has_table :
    (d : ℕ) (tables : Tables) (e : RoutingEntry)
    → Among e (entries_at d tables)
    → lookup d tables ≡ some (entries_at d tables)
has_table d tables e among = elim (Option-cases (lookup d tables)) [
  | inl missing ↦ absurd (rw missing at among)
  | inr (es, found) ↦ found ∙ rw found refl
]

-- What adding the entries of a board of `n` chips leaves for one of them.
pub record IsServedChip (monitor : ℕ → ℕ) (m : Machine) (root n : ℕ) (r : Routes) (d : ℕ)
    : Type 0 where
  pub key : ℕ
  pub has_key : lookup d r.key_to_destination_map ≡ some key
  pub arrives : Arrives m r.routing_tables key root d (monitor d)
  pub low : key < 8 + 8 * n
  pub table : List RoutingEntry
  pub in_tables : lookup d r.routing_tables ≡ some table
  pub few : length table ≤ n + 1
  pub in_range : All (InRange (9 + 8 * n)) table

pub add_routing_entries-IsServedChip :
    (add_entry : RoutingEntry → List RoutingEntry → Result (List RoutingEntry)) (monitor : ℕ → ℕ)
    (m : Machine) (root : ℕ) (tree : Tree) (r : Routes)
    → Appends add_entry
    → Arranges m
    → IsDistinct (m.chips_by_ethernet root)
    → member root (m.chips_by_ethernet root) ≡ true
    → tree_of_board m root ≡ ok tree
    → ((c : ℕ) → IsRouted m root tree c → lookup c r.routing_tables ≡ none)
    → (r' : Routes) × (add_routing_entries add_entry monitor m root tree r ≡ ok r')
      × (lookup root r'.time_out_keys_by_board ≡ some (8 + 8 * length (m.chips_by_ethernet root)))
      × ((d : ℕ)
          → member d (m.chips_by_ethernet root) ≡ true
          → IsServedChip monitor m root (length (m.chips_by_ethernet root)) r' d)
unfolding add_routing_entries
add_routing_entries-IsServedChip add_entry monitor m root tree r appends arranges distinct there
      returns no_tables =
    let n = length (m.chips_by_ethernet root) in
    let b = tree_of_board-IsBoardTree m root tree arranges there returns in
    let below : Below m root tree 8 r.routing_tables = λ c q. rw (no_tables c q) tt in
    let (key, added, ran, to_chips) =
      add_destinations_lem add_entry appends monitor m root tree b (m.chips_by_ethernet root) 8 r
        (omega arith) b.routed below in
    let (r', ran', broadcast) =
      add_broadcast_lem add_entry appends monitor m root tree b (m.chips_by_ethernet root) key added
        distinct
        (λ c h.
          Below-IsFree m root tree key c added.routing_tables to_chips.below (b.routed c h)) in
    let last : key ≡ 8 + 8 * n = to_chips.last_key in
    let below_key : Below m root tree (9 + 8 * n) added.routing_tables = λ c q.
      All-imp (InRange key) (InRange (9 + 8 * n)) (λ x h. (omega (arith, h.0, last), h.1))
        (entries_at c added.routing_tables) (to_chips.below c q) in
    let below_all = broadcast.below (9 + 8 * n) (omega (arith, last)) below_key in
    (
      r',
      rw ran ran',
      broadcast.gets_key root there ∙ ap some last,
      λ d on_board.
          let (k, found, arrives) = to_chips.delivered d on_board in
          let (e, among, e_key) =
            Arrives-first m added.routing_tables k root d (monitor d) arrives in
          let e_range =
            All-Among (InRange key) e (entries_at root added.routing_tables)
              (to_chips.below root start) among in
          let arrives' =
            Arrives-Keeps m added.routing_tables r'.routing_tables k root d (monitor d)
              broadcast.keeps arrives in
          let (e', among') = Arrives-last m r'.routing_tables k root d (monitor d) arrives' in
          let none_before : entries_at d r.routing_tables ≡ [] =
            rw (no_tables d (b.routed d on_board)) refl in
          record {
            key = k;
            has_key = ap (λ map. lookup d map) broadcast.same_map ∙ found;
            arrives = arrives';
            low = omega (arith, e_range.0, e_key, last);
            table = entries_at d r'.routing_tables;
            in_tables = has_table d r'.routing_tables e' among';
            few = omega (arith, broadcast.few d, to_chips.few d, ap length none_before);
            in_range = below_all d (b.routed d on_board);
          },
    )

-- Where the table's `add` appends entries with new keys, the order in which a set's members are taken
-- has the members of the set, the chips of the board are different and the Ethernet chip is one of
-- them, the search has found a tree, and no chip to which it leads has a routing table yet: adding
-- the routing entries returns. Then each chip of the board has a key, and packets with this key, or
-- with one of the seven that follow it, that start at the Ethernet chip have on each chip of their way
-- an entry that matches them, and these lead over working links to the monitor of that chip.
pub add_routing_entries-IsDelivered :
    (add_entry : RoutingEntry → List RoutingEntry → Result (List RoutingEntry)) (monitor : ℕ → ℕ)
    (m : Machine) (root : ℕ) (tree : Tree) (r : Routes)
    → Appends add_entry
    → Arranges m
    → IsDistinct (m.chips_by_ethernet root)
    → member root (m.chips_by_ethernet root) ≡ true
    → tree_of_board m root ≡ ok tree
    → ((c : ℕ) → IsRouted m root tree c → lookup c r.routing_tables ≡ none)
    → (r' : Routes) × (add_routing_entries add_entry monitor m root tree r ≡ ok r')
      × ((d : ℕ)
          → member d (m.chips_by_ethernet root) ≡ true
          → (key : ℕ) × (lookup d r'.key_to_destination_map ≡ some key)
            × Arrives m r'.routing_tables key root d (monitor d))
add_routing_entries-IsDelivered add_entry monitor m root tree r appends arranges distinct there
      returns no_tables =
    let (r', ran, _, served) =
      add_routing_entries-IsServedChip add_entry monitor m root tree r appends arranges distinct
        there returns no_tables in
    (r', ran, λ d on_board. let s = served d on_board in (s.key, s.has_key, s.arrives))
