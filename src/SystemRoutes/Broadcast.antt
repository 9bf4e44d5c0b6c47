-- ===== src/SystemRoutes/Broadcast.antt =====
-- The entries for the key of all chips of the board.
use spi_nnfront_end_common.Common.{
  ==_cases, ◌≤◌, ℕ, ◌+◌, ◌<◌, ◌≡◌, refl, sym, ap, ◌∙◌, inl, inr, true, false, some, List, [], ◌∷◌,
  Result, ok, ◌==◌, length, arith,
}
use spi_nnfront_end_common.Common.Maps.{lookup-assign_same, lookup, assign}
use spi_nnfront_end_common.Common.Numbers.{member}
use spi_nnfront_end_common.Router.Merge.{Appends, RoutingEntry}
use spi_nnfront_end_common.SystemRoutes.Tree.{Machine, Tree}
use spi_nnfront_end_common.SystemRoutes.Board.{IsBoardTree}
use spi_nnfront_end_common.SystemRoutes.Entries.{Routes, entry_for, add_broadcast, links_per_chip}
use spi_nnfront_end_common.SystemRoutes.Delivered.{
  entries_at, Keeps, IsFree, add_routing_entry-Added, Added-Keeps, Added-length,
}
use spi_nnfront_end_common.SystemRoutes.Way.{Below, Below-add}

-- The chips are different.
abbrev pub IsDistinct : List ℕ → Type 0
IsDistinct [] = Unit
IsDistinct (c ∷ cs) = (member c cs ≡ false) × IsDistinct cs

module _ (add_entry : RoutingEntry → List RoutingEntry → Result (List RoutingEntry))
    (appends : Appends add_entry) (monitor : ℕ → ℕ) (m : Machine) (root : ℕ) (tree : Tree)
    (b : IsBoardTree m root tree) where
  pub record BroadcastAdded (chips : List ℕ) (key : ℕ) (r r' : Routes) : Type 0 where
    pub keeps : Keeps r.routing_tables r'.routing_tables
    pub same_map : r'.key_to_destination_map ≡ r.key_to_destination_map
    pub has_key :
        lookup root r.time_out_keys_by_board ≡ some key
        → lookup root r'.time_out_keys_by_board ≡ some key
    pub gets_key :
        (c : ℕ) → member c chips ≡ true → lookup root r'.time_out_keys_by_board ≡ some key
    pub below :
        (hi : ℕ)
        → key < hi
        → Below m root tree hi r.routing_tables
        → Below m root tree hi r'.routing_tables
    pub untouched :
        (c : ℕ)
        → member c chips ≡ false
        → entries_at c r'.routing_tables ≡ entries_at c r.routing_tables
    pub few :
        (c : ℕ)
        → length (entries_at c r'.routing_tables) ≤ length (entries_at c r.routing_tables) + 1

  pub add_broadcast_lem :
      (chips : List ℕ) (key : ℕ) (r : Routes)
      → IsDistinct chips
      → ((c : ℕ) → member c chips ≡ true → IsFree key c r.routing_tables)
      → (r' : Routes) × (add_broadcast add_entry monitor tree root chips key r ≡ ok r')
        × BroadcastAdded chips key r r'
  unfolding add_broadcast member
  add_broadcast_lem [] key r distinct free = (
    r,
    refl,
    record {
      keeps = λ c x h. h;
      same_map = refl;
      has_key = λ h. h;
      gets_key = λ c h. absurd (cc h);
      below = λ hi lt h. h;
      untouched = λ c h. refl;
      few = λ c. omega arith;
    },
  )
  add_broadcast_lem (chip ∷ chips) key r distinct free =
      let ps = monitor chip ∷ [] in
      let ls = links_per_chip chip tree in
      let (tables, ran, added) =
        add_routing_entry-Added add_entry appends chip key ps ls r.routing_tables
          (free chip (ground arith)) in
      let e = entry_for key ps ls in
      let r1 : Routes = record r {
        routing_tables = tables;
        time_out_keys_by_board = assign root key r.time_out_keys_by_board;
      } in
      let different : (c : ℕ) → member c chips ≡ true → (c == chip) ≡ false = λ c h.
        elim (==_cases c chip) [
          | inl (c_is, _) ↦ absurd (cc (sym h ∙ ap (λ k. member k chips) c_is ∙ distinct.0))
          | inr other ↦ other
        ] in
      let now : lookup root r1.time_out_keys_by_board ≡ some key =
        lookup-assign_same root key r.time_out_keys_by_board in
      let (r', ran', rest) =
        add_broadcast_lem chips key r1 distinct.1
          (λ c h. rw (added.elsewhere c (different c h)) (free c (ground arith))) in
      (
        r',
        rw (ran, add_broadcast) ran',
        record {
          keeps = λ c x h. rest.keeps c x (Added-Keeps chip e r.routing_tables tables added c x h);
          same_map = rest.same_map;
          has_key = λ h. rest.has_key now;
          gets_key = λ c h. rest.has_key now;
          below = λ hi lt h.
              rest.below hi lt
                (Below-add m root tree key hi chip ps ls r.routing_tables tables lt added h);
          untouched = λ c h. rest.untouched c (ground arith) ∙ added.elsewhere c (ground arith);
          few = λ c. elim (==_cases c chip) [
            | inl (c_is, _) ↦ rw c_is (
                omega (
                  arith,
                  ap length (rest.untouched chip distinct.0),
                  Added-length chip e r.routing_tables tables added,
                ))
            | inr other ↦ omega (arith, rest.few c, ap length (added.elsewhere c other))
          ];
        },
      )
