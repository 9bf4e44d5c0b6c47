-- ===== src/SystemRoutes/Extended.antt =====
-- What a step of the search changes, and a chip more that it finds.
use spi_nnfront_end_common.Common.{
  ==_cases, ℕ, suc, ◌≤◌, ◌<◌, ◌≡◌, refl, sym, ap, ◌∙◌, ◌⊎◌, inl, inr, true, false, none, some, ◌==◌,
  ==_iff, ==_refl, Bool-cases, length, arith,
}
use spi_nnfront_end_common.Common.Maps.{
  lookup-assign_other, lookup-assign_same, lookup, assign, lookup-assign,
}
use spi_nnfront_end_common.Common.Numbers.{sets, add, member, member-add}
use spi_nnfront_end_common.SystemRoutes.Tree.{Machine, discard, Search}
use spi_nnfront_end_common.SystemRoutes.Routed.{
  steps, steps_unique, length-assign_new, member-discard, length-discard-member, routed-assign,
  IsRouted-cases, IsGrown, IsRouted, start, over,
}

module _ (m : Machine) (root : ℕ) where
  -- What a step changes.
  pub record Extends (s s' : Search) : Type 0 where
    pub grown : IsGrown m root s'
    pub keeps : (d : ℕ) → IsRouted m root s.tree d → IsRouted m root s'.tree d
    pub only :
        (d : ℕ) → IsRouted m root s'.tree d → IsRouted m root s.tree d ⊎ (member d s'.found ≡ true)
    pub finds : (d : ℕ) → member d s.found ≡ true → member d s'.found ≡ true
    pub shrinks : (d : ℕ) → member d s.to_reach ≡ false → member d s'.to_reach ≡ false
    pub fewer :
        ((length s'.to_reach < length s.to_reach) × ((d : ℕ) × (member d s'.found ≡ true)))
        ⊎ (s' ≡ s)

  pub Extends-refl : (s : Search) → IsGrown m root s → Extends s s
  Extends-refl s g = record {
    grown = g;
    keeps = λ d p. p;
    only = λ d p. inl p;
    finds = λ d h. h;
    shrinks = λ d h. h;
    fewer = inr refl;
  }

  pub Extends-trans : (s s' s'' : Search) → Extends s s' → Extends s' s'' → Extends s s''
  Extends-trans s s' s'' a b = record {
    grown = b.grown;
    keeps = λ d p. b.keeps d (a.keeps d p);
    only = λ d p. elim (b.only d p) [
      | inr h ↦ inr h
      | inl q ↦ elim (a.only d q) [ inl r ↦ inl r | inr h ↦ inr (b.finds d h) ]
    ];
    finds = λ d h. b.finds d (a.finds d h);
    shrinks = λ d h. b.shrinks d (a.shrinks d h);
    fewer = elim a.fewer [
      | inr e ↦ elim b.fewer [
        | inr e' ↦ inr (e' ∙ e)
        | inl (lt', some') ↦ inl (omega (arith, lt', ap (λ x. length x.to_reach) e), some')
      ]
      | inl (lt, (d, h)) ↦ elim b.fewer [
        | inr e' ↦ inl (omega (arith, lt, ap (λ x. length x.to_reach) e'), (d, b.finds d h))
        | inl (lt', some') ↦ inl (omega (arith, lt, lt'), some')
      ]
    ];
  }

  -- The state with one more chip.
  abbrev pub with_chip : ℕ → ℕ → ℕ → Search → Search
  with_chip chip link d s = record {
    tree = assign d (chip, link) s.tree;
    to_reach = discard d s.to_reach;
    found = add d s.found;
  }

  module _ (s : Search) (g : IsGrown m root s) (chip link d : ℕ)
      (leads : m.destination chip link ≡ some d) (wanted : member d s.to_reach ≡ true)
      (works : m.is_link chip link ≡ true) (from : IsRouted m root s.tree chip) where
    kept : (e : ℕ) → IsRouted m root s.tree e → IsRouted m root (assign d (chip, link) s.tree) e
    kept e p = let (p', _) = routed-assign m root d (chip, link) s.tree e (g.unset d wanted) p in p'

    new_steps :
        (p : IsRouted m root (assign d (chip, link) s.tree) d) × (steps m root
            (assign d (chip, link) s.tree)
            d
            p
          ≡ suc (steps m root s.tree chip from))
    new_steps =
        let (from', same_steps) =
          routed-assign m root d (chip, link) s.tree chip (g.unset d wanted) from in
        (
          over d chip link (lookup-assign_same d (chip, link) s.tree) leads works from',
          ap suc same_steps,
        )

    new : IsRouted m root (assign d (chip, link) s.tree) d
    new = let (p, _) = new_steps in p

    not_root : (root == d) ≡ false
    not_root = elim (==_cases root d) [
      | inl (e, _) ↦ absurd (cc (sym wanted ∙ sym (ap (λ k. member k s.to_reach) e) ∙ g.no_root))
      | inr other ↦ other
    ]

    entries :
        (e : ℕ) (v : ℕ × ℕ)
        → lookup e (assign d (chip, link) s.tree) ≡ some v
        → (e ≡ d) ⊎ IsRouted m root s.tree e
    entries e v h = elim (Bool-cases (e == d)) [
      | inl same ↦ inl ((==_iff e d).0 same)
      | inr other ↦
          inr (g.entered e v (sym (lookup-assign_other e d (chip, link) s.tree other) ∙ h))
    ]

    with_chip-root : lookup root (assign d (chip, link) s.tree) ≡ none
    with_chip-root = lookup-assign root d (chip, link) s.tree ∙ rw not_root g.root_unset

    with_chip-short :
        (e : ℕ) (p : IsRouted m root (assign d (chip, link) s.tree) e)
        → steps m root (assign d (chip, link) s.tree) e p ≤ length (assign d (chip, link) s.tree)
    with_chip-short e p =
        let tree' = assign d (chip, link) s.tree in
        let (new', n_steps) = new_steps in
        let longer = length-assign_new d (chip, link) s.tree (g.unset d wanted) in
        elim (IsRouted-cases m root tree' e p) [
          | inl same ↦ omega (arith, steps_unique m root tree' with_chip-root e root p start same)
          | inr (v, entry) ↦ elim (entries e v entry) [
            | inl same ↦ omega (
              arith,
              longer,
              steps_unique m root tree' with_chip-root e d p new' same,
              n_steps,
              g.short chip from,
            )
            | inr q ↦
                let (q', same_steps) =
                  routed-assign m root d (chip, link) s.tree e (g.unset d wanted) q in
                omega (
                  arith,
                  longer,
                  steps_unique m root tree' with_chip-root e e p q' refl,
                  same_steps,
                  g.short e q,
                )
          ]
        ]

    with_chip-IsGrown : IsGrown m root (with_chip chip link d s)
    with_chip-IsGrown = record {
      covered = λ e on_board. elim (==_cases e d) [
        | inl (e', _) ↦ inr (rw e' new)
        | inr other ↦ elim (g.covered e on_board) [
          | inl h ↦ inl (member-discard e d s.to_reach ∙ rw (other, h) refl)
          | inr p ↦ inr (kept e p)
        ]
      ];
      reached = λ e h. elim (==_cases e d) [
        | inl (e', _) ↦ rw e' new
        | inr other ↦ kept e (g.reached e (sym (member-add e d s.found ∙ rw other refl) ∙ h))
      ];
      entered = λ e v h. elim (entries e v h) [ inl e' ↦ rw e' new | inr p ↦ kept e p ];
      unset = λ e h. elim (Bool-cases (e == d)) [
        | inl same ↦
            let gone : member e (discard d s.to_reach) ≡ false =
              member-discard e d s.to_reach ∙ rw same refl in
            absurd (cc (sym h ∙ gone))
        | inr other ↦
            lookup-assign e d (chip, link) s.tree
            ∙ rw other (g.unset e (sym (member-discard e d s.to_reach ∙ rw other refl) ∙ h))
      ];
      no_root = member-discard root d s.to_reach ∙ rw (not_root, g.no_root) refl;
      root_unset = with_chip-root;
      short = with_chip-short;
    }

    pub with_chip-Extends : Extends s (with_chip chip link d s)
    with_chip-Extends = record {
      grown = with_chip-IsGrown;
      keeps = kept;
      only = λ e p. elim (IsRouted-cases m root (assign d (chip, link) s.tree) e p) [
        | inl e' ↦ rw e' (inl start)
        | inr (v, entry) ↦ elim (entries e v entry) [
          | inl same ↦ inr (member-add e d s.found ∙ rw (same, ==_refl d) refl)
          | inr q ↦ inl q
        ]
      ];
      finds = λ e h. grind sets;
      shrinks = λ e h. ground (arith, member-discard e d s.to_reach);
      fewer = inl (
        length-discard-member d s.to_reach wanted,
        (d, member-add d d s.found ∙ rw (==_refl d) refl),
      );
    }
