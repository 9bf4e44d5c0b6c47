-- ===== src/SystemRoutes/Destinations.antt =====
-- The entries for each chip of the board.
use spi_nnfront_end_common.Common.{
  ==_cases, ◌%◌, ◌*◌, ◌≤◌, ℕ, ◌+◌, ◌≡◌, refl, ap, ◌∙◌, inl, inr, true, some, List, [], ◌∷◌, Result,
  ok, ==_refl, length, All-imp, arith,
}
use spi_nnfront_end_common.Common.Maps.{lookup-assign_same, lookup, assign, lookup-assign}
use spi_nnfront_end_common.Common.Numbers.{member}
use spi_nnfront_end_common.Router.Merge.{Appends, RoutingEntry}
use spi_nnfront_end_common.SystemRoutes.Tree.{Machine, Tree}
use spi_nnfront_end_common.SystemRoutes.Routed.{IsRouted, steps_unique}
use spi_nnfront_end_common.SystemRoutes.Board.{IsBoardTree}
use spi_nnfront_end_common.SystemRoutes.Entries.{Routes, entry_for, add_destinations}
use spi_nnfront_end_common.SystemRoutes.Matching.{entry_for-Serves}
use spi_nnfront_end_common.SystemRoutes.Delivered.{
  Among, Among-append_last, entries_at, Arrives, local, Keeps, Arrives-Keeps,
  add_routing_entry-Added, Added-Keeps, Added-length,
}
use spi_nnfront_end_common.SystemRoutes.Way.{
  InRange, Below, Below-IsFree, Below-add, nearer-IsFree, add_way_lem,
}

module _ (add_entry : RoutingEntry → List RoutingEntry → Result (List RoutingEntry))
    (appends : Appends add_entry) (monitor : ℕ → ℕ) (m : Machine) (root : ℕ) (tree : Tree)
    (b : IsBoardTree m root tree) where
  -- The chip has a key, with which packets from the Ethernet chip go to its monitor.
  abbrev pub IsDelivered : Routes → ℕ → Type 0
  IsDelivered r d =
      (key : ℕ) × (lookup d r.key_to_destination_map ≡ some key)
      × Arrives m r.routing_tables key root d (monitor d)

  -- What the loop over the chips has added.
  pub record DestinationsAdded (chips : List ℕ) (key key' : ℕ) (r r' : Routes) : Type 0 where
    pub below : Below m root tree key' r'.routing_tables
    pub last_key : key' ≡ key + 8 * length chips
    pub kept : (d : ℕ) → IsDelivered r d → IsDelivered r' d
    pub delivered : (d : ℕ) → member d chips ≡ true → IsDelivered r' d
    pub few :
        (c : ℕ)
        → length (entries_at c r'.routing_tables)
          ≤ length (entries_at c r.routing_tables) + length chips

  pub add_destinations_lem :
      (chips : List ℕ) (key : ℕ) (r : Routes)
      → key % 8 ≡ 0
      → ((c : ℕ) → member c chips ≡ true → IsRouted m root tree c)
      → Below m root tree key r.routing_tables
      → (key' : ℕ) × (r' : Routes) × (add_destinations add_entry monitor tree chips key r
          ≡ ok (key', r'))
        × DestinationsAdded chips key key' r r'
  unfolding add_destinations member
  add_destinations_lem [] key r whole routed below = (
    key,
    r,
    refl,
    record {
      below = below;
      last_key = omega arith;
      kept = λ d h. h;
      delivered = λ d h. absurd (cc h);
      few = λ c. omega arith;
    },
  )
  add_destinations_lem (chip ∷ chips) key r whole routed below =
      let p = routed chip (ground arith) in
      let free = Below-IsFree m root tree key chip r.routing_tables below p in
      let e = entry_for key (monitor chip ∷ []) [] in
      let (at_chip, ran, added) =
        add_routing_entry-Added add_entry appends chip key (monitor chip ∷ []) [] r.routing_tables
          free in
      let among : Among e (entries_at chip at_chip) =
        rw (added.here) (Among-append_last e (entries_at chip r.routing_tables)) in
      let arrives : Arrives m at_chip key chip chip (monitor chip) =
        local chip (monitor chip) e among (entry_for-Serves key (monitor chip ∷ []) [] whole)
          (rw (==_refl (monitor chip)) refl) in
      let below_next : Below m root tree (key + 8) r.routing_tables = λ c q.
        All-imp (InRange key) (InRange (key + 8)) (λ x h. (omega (arith, h.0), h.1))
          (entries_at c r.routing_tables) (below c q) in
      let (tables, ran', way) =
        add_way_lem add_entry appends m root tree b key (key + 8) chip (monitor chip) (length tree)
          chip p at_chip (omega arith) whole (b.short chip p)
          (nearer-IsFree m root tree b key chip p e r.routing_tables at_chip added
            (λ c q _. Below-IsFree m root tree key c r.routing_tables below q))
          arrives
          (Below-add m root tree key (key + 8) chip (monitor chip ∷ []) [] r.routing_tables at_chip
            (omega arith) added below_next) in
      let r1 : Routes = record r {
        routing_tables = tables;
        key_to_destination_map = assign chip key r.key_to_destination_map;
      } in
      let mine : IsDelivered r1 chip =
        (key, lookup-assign_same chip key r.key_to_destination_map, way.arrives) in
      let all_kept : Keeps r.routing_tables tables =
        λ c x h. way.keeps c x (Added-Keeps chip e r.routing_tables at_chip added c x h) in
      let others : (d : ℕ) → IsDelivered r d → IsDelivered r1 d = λ d delivered.
        let (k, found, arrives_before) = delivered in
        elim (==_cases d chip) [
          | inl (d_is, _) ↦ rw d_is mine
          | inr other ↦ (
            k,
            lookup-assign d chip key r.key_to_destination_map ∙ rw other found,
            Arrives-Keeps m r.routing_tables tables k root d (monitor d) all_kept arrives_before,
          )
        ] in
      let one_more : (c : ℕ)
          → length (entries_at c tables) ≤ length (entries_at c r.routing_tables) + 1 =
        λ c. elim (==_cases c chip) [
          | inl (c_is, _) ↦ rw c_is (elim (way.one_more chip) [
            | inl kept ↦
                omega (arith, ap length kept, Added-length chip e r.routing_tables at_chip added)
            | inr (q, lt, longer) ↦
                absurd (omega (arith, lt, steps_unique m root tree b.root_unset chip chip q p refl))
          ])
          | inr other ↦ elim (way.one_more c) [
            | inl kept ↦ omega (arith, ap length (kept ∙ added.elsewhere c other))
            | inr (q, lt, longer) ↦ omega (arith, longer, ap length (added.elsewhere c other))
          ]
        ] in
      let (key', r', ran_rest, rest) =
        add_destinations_lem chips (key + 8) r1 (omega arith) (λ c h. routed c (ground arith))
          way.below in
      (
        key',
        r',
        rw (ran, ran', add_destinations) ran_rest,
        record {
          below = rest.below;
          last_key = omega (arith, rest.last_key);
          kept = λ d h. rest.kept d (others d h);
          delivered = λ d h. elim (==_cases d chip) [
            | inl (d_is, _) ↦ rw d_is (rest.kept chip mine)
            | inr other ↦ rest.delivered d (ground arith)
          ];
          few = λ c. omega (arith, one_more c, rest.few c);
        },
      )
