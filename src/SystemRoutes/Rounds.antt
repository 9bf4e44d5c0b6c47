-- ===== src/SystemRoutes/Rounds.antt =====
-- The search ends, with a tree that leads to all chips of the board, or because one cannot be reached.
use spi_nnfront_end_common.Common.{
  ==_cases, ℕ, zero, suc, ◌≤◌, ◌<◌, ◌≡◌, refl, sym, ap, ◌∙◌, ◌⊎◌, inl, inr, true, false, not, ◌&&◌,
  Option, none, some, List, [], ◌∷◌, ◌==◌, ==_iff, ==_refl, Bool-cases, length, arith,
}
use spi_nnfront_end_common.Common.Maps.{lookup}
use spi_nnfront_end_common.Common.Numbers.{sets, update, member}
use spi_nnfront_end_common.SystemRoutes.Tree.{
  Machine, Tree, link_order, is_empty, Search, try_just_reached, search, start_search,
}
use spi_nnfront_end_common.SystemRoutes.Routed.{
  member-discard, steps, IsRouted, start, over, IsRouted-cases, IsGrown,
}
use spi_nnfront_end_common.SystemRoutes.Tried.{AllTried, try_chips-Extends}

-- The order in which the members of a set are taken has the members of the set.
abbrev pub Arranges : Machine → Type 0
Arranges m = (ns : List ℕ) (n : ℕ) → member n (m.arrange ns) ≡ member n ns

-- The chip can be reached over working links between chips of the board.
pub data IsReachable (m : Machine) (root : ℕ) : ℕ → Type 0 where
  here : IsReachable m root root
  step :
      (c l d : ℕ)
      → IsReachable m root c
      → member l link_order ≡ true
      → m.destination c l ≡ some d
      → m.is_link c l ≡ true
      → member d (m.chips_by_ethernet root) ≡ true
      → IsReachable m root d

module _ (m : Machine) (root : ℕ) (arranges : Arranges m) where
  -- A chip that has a way is among those found last, or all its links are tried.
  pub record IsSearched (s : Search) : Type 0 where
    pub grown : IsGrown m root s
    pub closed : (c : ℕ) → IsRouted m root s.tree c → (member c s.found ≡ true) ⊎ AllTried m s c

  pub try_just_reached-IsSearched :
      (s : Search)
      → IsSearched s
      → IsSearched (try_just_reached m s)
        × (((length (try_just_reached m s).to_reach < length s.to_reach)
              × ((d : ℕ) × (member d (try_just_reached m s).found ≡ true)))
            ⊎ (((try_just_reached m s).found ≡ [])
                × ((try_just_reached m s).to_reach ≡ s.to_reach)))
        × ((d : ℕ) → member d s.to_reach ≡ false → member d (try_just_reached m s).to_reach ≡ false)
  unfolding try_just_reached member
  try_just_reached-IsSearched s i =
      let s0 : Search = record s { found = [] } in
      let g0 : IsGrown m root s0 = record {
        covered = i.grown.covered;
        reached = λ d h. absurd (cc h);
        entered = i.grown.entered;
        unset = i.grown.unset;
        no_root = i.grown.no_root;
        root_unset = i.grown.root_unset;
        short = i.grown.short;
      } in
      let (x, tried) =
        try_chips-Extends m root (m.arrange s.found) s0 g0
          (λ c h. i.grown.reached c (sym (arranges s.found c) ∙ h)) in
      (
        record {
          grown = x.grown;
          closed = λ c p. elim (x.only c p) [
            | inr h ↦ inl h
            | inl before ↦ inr (elim (i.closed c before) [
              | inl h ↦ tried c (arranges s.found c ∙ h)
              | inr done ↦ λ l is_one d leads works. x.shrinks d (done l is_one d leads works)
            ])
          ];
        },
        elim x.fewer [
          | inl lt ↦ inl lt
          | inr e ↦ inr (ap (λ y. y.found) e, ap (λ y. y.to_reach) e)
        ],
        x.shrinks,
      )

  -- With none left to reach, the tree leads to each chip; with none found, no way leads on.
  covered_all :
      (s : Search)
      → IsSearched s
      → s.to_reach ≡ []
      → (d : ℕ) → member d (m.chips_by_ethernet root) ≡ true
      → IsRouted m root s.tree d
  unfolding member
  covered_all s i e d on_board = elim (i.grown.covered d on_board) [
    | inl h ↦ absurd (cc (sym h ∙ ap (λ ns. member d ns) e))
    | inr p ↦ p
  ]

  routed_if_reachable :
      (s : Search) (d : ℕ)
      → IsSearched s
      → s.found ≡ []
      → IsReachable m root d
      → IsRouted m root s.tree d
  unfolding member
  routed_if_reachable s d i e here = start
  routed_if_reachable s d i e (step c l _ before is_one leads works on_board) =
      elim (i.closed c (routed_if_reachable s c i e before)) [
        | inl h ↦ absurd (cc (sym h ∙ ap (λ ns. member c ns) e))
        | inr done ↦ elim (i.grown.covered d on_board) [
          | inl h ↦ absurd (cc (sym h ∙ done l is_one d leads works))
          | inr p ↦ p
        ]
      ]

  not-IsReachable :
      (s : Search) (d : ℕ)
      → IsSearched s
      → s.found ≡ []
      → member d s.to_reach ≡ true
      → ¬ (IsReachable m root d)
  not-IsReachable s d i e h p =
      elim (IsRouted-cases m root s.tree d (routed_if_reachable s d i e p)) [
        | inl same ↦ cc (sym h ∙ ap (λ k. member k s.to_reach) same ∙ i.grown.no_root)
        | inr (v, entry) ↦ cc (sym entry ∙ i.grown.unset d h)
      ]

  is_empty-eq : (ns : List ℕ) → is_empty ns ≡ true → ns ≡ []
  is_empty-eq [] h = refl
  is_empty-eq (n ∷ ns) h = cc

  some_member : (ns : List ℕ) → is_empty ns ≡ false → (n : ℕ) × (member n ns ≡ true)
  unfolding member
  some_member [] h = cc
  some_member (n ∷ ns) h = (n, rw (==_refl n) refl)

  -- Either a tree that leads to each chip of the board and not back to the Ethernet chip, or none as
  -- a chip of the board cannot be reached.
  abbrev pub Ends : Option Tree → Type 0
  Ends outcome =
      ((tree : Tree) × (outcome ≡ some tree)
        × (lookup root tree ≡ none)
        × ((d : ℕ) → member d (m.chips_by_ethernet root) ≡ true → IsRouted m root tree d)
        × ((d : ℕ) (p : IsRouted m root tree d) → steps m root tree d p ≤ length tree))
      ⊎ ((outcome ≡ none)
          × ((d : ℕ) × (member d (m.chips_by_ethernet root) ≡ true) × (¬ (IsReachable m root d))))

  pub search-Ends :
      (rounds : ℕ) (s : Search)
      → length s.to_reach < rounds
      → IsSearched s
      → ((d : ℕ) → member d s.to_reach ≡ true → member d (m.chips_by_ethernet root) ≡ true)
      → Ends (search m rounds s)
  unfolding search member
  search-Ends zero s h i within = absurd (omega arith)
  search-Ends (suc rounds) s h i within = elim (Bool-cases (is_empty s.to_reach)) [
    | inl none_left ↦ rw none_left (
        inl (
          s.tree,
          refl,
          i.grown.root_unset,
          covered_all s i (is_empty-eq s.to_reach none_left),
          i.grown.short,
        ))
    | inr some_left ↦
        let (i', fewer, shrinks) = try_just_reached-IsSearched s i in
        let s' = try_just_reached m s in
        let within' : (d : ℕ)
            → member d s'.to_reach ≡ true
            → member d (m.chips_by_ethernet root) ≡ true =
          λ d h'. elim (Bool-cases (member d s.to_reach)) [
            | inl was ↦ within d was
            | inr was_not ↦ absurd (cc (sym h' ∙ shrinks d was_not))
          ] in
        elim fewer [
          | inl (lt, (d, h')) ↦ elim (Bool-cases (is_empty s'.found)) [
            | inl stuck ↦ absurd (cc (sym h' ∙ ap (λ ns. member d ns) (is_empty-eq s'.found stuck)))
            | inr on ↦ rw (some_left, on) (search-Ends rounds s' (omega (arith, lt)) i' within')
          ]
          | inr (nothing, same) ↦
              let (d, left) = some_member s.to_reach some_left in
              let left' : member d s'.to_reach ≡ true = ap (λ ns. member d ns) same ∙ left in
              rw (some_left, nothing)
                (inr (refl, (d, within d left, not-IsReachable s' d i' nothing left')))
        ]
  ]

  pub on_board :
      (d : ℕ)
      → member d (update (m.chips_by_ethernet root) []) ≡ member d (m.chips_by_ethernet root)
  unfolding member
  on_board d = grind sets

  pub left_at_start :
      (d : ℕ)
      → member d (start_search m root).to_reach
        ≡ (not (d == root) && member d (m.chips_by_ethernet root))
  left_at_start d =
      member-discard d root (update (m.chips_by_ethernet root) [])
      ∙ ap (λ b. not (d == root) && b) (on_board d)

  short_at_start : (d : ℕ) (p : IsRouted m root [] d) → steps m root [] d p ≤ 0
  unfolding lookup
  short_at_start d start = omega arith
  short_at_start d (over _ c l entry leads link before) = absurd (cc entry)

  pub start_search-IsSearched : IsSearched (start_search m root)
  unfolding lookup member
  start_search-IsSearched = record {
    grown = record {
      covered = λ d on_board. elim (==_cases d root) [
        | inl (e, _) ↦ inr (rw e start)
        | inr other ↦ inl (left_at_start d ∙ rw (other, on_board) refl)
      ];
      reached = λ d h. let e : d ≡ root = (==_iff d root).0 (ground arith) in rw e start;
      entered = λ d v h. absurd (cc h);
      unset = λ d h. refl;
      no_root = left_at_start root ∙ rw (==_refl root) refl;
      root_unset = refl;
      short = λ d p. short_at_start d p;
    };
    closed = λ c p. elim (IsRouted-cases m root [] c p) [
      | inl same ↦ inl (rw (same, ==_refl root) refl)
      | inr (v, entry) ↦ absurd (cc entry)
    ];
  }
