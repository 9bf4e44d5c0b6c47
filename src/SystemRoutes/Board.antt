-- ===== src/SystemRoutes/Board.antt =====
-- The tree of a board leads to all its chips, or one cannot be reached.
use spi_nnfront_end_common.Common.{
  ℕ, zero, suc, ◌+◌, ◌≤◌, ◌<◌, ◌≡◌, refl, sym, ap, ◌∙◌, ◌⊎◌, inl, inr, true, none, some, [],
  if◌then◌else◌, length, ok, err, pacman_routing_exception, arith,
}
use spi_nnfront_end_common.Common.Maps.{lookup}
use spi_nnfront_end_common.Common.Numbers.{update, member}
use spi_nnfront_end_common.SystemRoutes.Tree.{
  Machine, Tree, is_empty, Search, try_just_reached, search, start_search, enough_rounds,
  generate_routing_tree, tree_of_board,
}
use spi_nnfront_end_common.SystemRoutes.Routed.{IsRouted, steps}
use spi_nnfront_end_common.SystemRoutes.Rounds.{
  Arranges, IsReachable, IsSearched, try_just_reached-IsSearched, search-Ends, on_board,
  left_at_start, start_search-IsSearched,
}

module _ (m : Machine) (root : ℕ) (arranges : Arranges m) where
  -- One more round than there are chips to reach changes nothing.
  one_more_round :
      (rounds : ℕ) (s : Search)
      → length s.to_reach < rounds
      → IsSearched m root arranges s
      → search m (suc rounds) s ≡ search m rounds s
  unfolding search member
  one_more_round zero s h i = absurd (omega arith)
  one_more_round (suc rounds) s h i =
      let (i', fewer, shrinks) = try_just_reached-IsSearched m root arranges s i in
      let s' = try_just_reached m s in
      elim fewer [
        | inl (lt, found_one) ↦
            let same = one_more_round rounds s' (omega (arith, lt)) i' in
            ap
              (λ rest.
                if is_empty s.to_reach
                then some s.tree
                else if is_empty s'.found
                then none
                else rest)
              same
        | inr (nothing, _) ↦ rw nothing refl
      ]

-- Where the order in which a set's members are taken has the members of the set: any more rounds
-- than the number of chips to reach, plus one, give the same tree or none.
pub search_lem :
    (m : Machine) (root more : ℕ)
    → Arranges m
    → search m (enough_rounds m root + more) (start_search m root)
      ≡ search m (enough_rounds m root) (start_search m root)
search_lem m root zero arranges =
    ap (λ n. search m n (start_search m root)) {x = enough_rounds m root + 0}
      {y = enough_rounds m root} (omega arith)
search_lem m root (suc more) arranges =
    ap (λ n. search m n (start_search m root)) {x = enough_rounds m root + suc more}
      {y = suc (enough_rounds m root + more)} (omega arith)
    ∙ one_more_round m root arranges (enough_rounds m root + more) (start_search m root)
        (omega arith) (start_search-IsSearched m root arranges)
    ∙ search_lem m root more arranges

-- Where the order in which a set's members are taken has the members of the set, and the Ethernet
-- chip is a chip of its board: either the result is a tree that has no entry for the Ethernet chip
-- and leads from there to each chip of the board over working links between them, or the routing
-- exception is raised, and then some chip of the board cannot be reached over working links between
-- chips of the board.
pub tree_of_board-IsRouted :
    (m : Machine) (root : ℕ)
    → Arranges m
    → member root (m.chips_by_ethernet root) ≡ true
    → ((tree : Tree) × (tree_of_board m root ≡ ok tree)
        × (lookup root tree ≡ none)
        × ((d : ℕ) → member d (m.chips_by_ethernet root) ≡ true → IsRouted m root tree d))
      ⊎ ((tree_of_board m root ≡ err pacman_routing_exception)
          × ((d : ℕ) × (member d (m.chips_by_ethernet root) ≡ true) × (¬ (IsReachable m root d))))
unfolding tree_of_board generate_routing_tree
tree_of_board-IsRouted m root arranges there =
    let there' : member root (update (m.chips_by_ethernet root) []) ≡ true =
      on_board m root arranges root ∙ there in
    elim (search-Ends m root arranges (enough_rounds m root) (start_search m root) (omega arith)
      (start_search-IsSearched m root arranges)
      (λ d h. ground (arith, left_at_start m root arranges d))) [
        | inl (tree, e, unset, routed, _) ↦ inl (tree, rw (there', e) refl, unset, routed)
        | inr (e, stuck) ↦ inr (simp (there', e), stuck)
      ]

-- The tree of a board has its chips, each over no more links than it has entries.
pub record IsBoardTree (m : Machine) (root : ℕ) (tree : Tree) : Type 0 where
  pub root_unset : lookup root tree ≡ none
  pub routed : (d : ℕ) → member d (m.chips_by_ethernet root) ≡ true → IsRouted m root tree d
  pub short : (d : ℕ) (p : IsRouted m root tree d) → steps m root tree d p ≤ length tree

pub tree_of_board-IsBoardTree :
    (m : Machine) (root : ℕ) (tree : Tree)
    → Arranges m
    → member root (m.chips_by_ethernet root) ≡ true
    → tree_of_board m root ≡ ok tree
    → IsBoardTree m root tree
unfolding tree_of_board generate_routing_tree
tree_of_board-IsBoardTree m root tree arranges there returns =
    let there' : member root (update (m.chips_by_ethernet root) []) ≡ true =
      on_board m root arranges root ∙ there in
    elim (search-Ends m root arranges (enough_rounds m root) (start_search m root) (omega arith)
      (start_search-IsSearched m root arranges)
      (λ d h. ground (arith, left_at_start m root arranges d))) [
        | inl (tree', e, unset, routed, short) ↦
            let found : tree_of_board m root ≡ ok tree' = rw (there', e) refl in
            let same : tree ≡ tree' = cc (sym returns ∙ found) in
            let of_board : IsBoardTree m root tree' = record {
              root_unset = unset;
              routed = routed;
              short = short;
            } in
            rw same of_board
        | inr (e, stuck) ↦
            let failed : tree_of_board m root ≡ err pacman_routing_exception = simp (there', e) in
            absurd (cc (sym returns ∙ failed))
      ]
