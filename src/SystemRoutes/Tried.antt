-- ===== src/SystemRoutes/Tried.antt =====
-- After the links of some chips are tried, none of them leads to a chip that is still to reach.
use spi_nnfront_end_common.Common.{
  ==_cases, ℕ, ◌≡◌, inl, inr, true, false, some, Option-cases, List, [], ◌∷◌, Bool-cases, arith,
}
use spi_nnfront_end_common.Common.Numbers.{member}
use spi_nnfront_end_common.SystemRoutes.Tree.{
  Machine, link_order, Search, try_destination, try_links, try_chips,
}
use spi_nnfront_end_common.SystemRoutes.Routed.{IsRouted, IsGrown, discard_gone}
use spi_nnfront_end_common.SystemRoutes.Extended.{
  Extends, Extends-refl, Extends-trans, with_chip-Extends,
}

module _ (m : Machine) where
  -- The link of the chip does not lead to a chip that is still to reach.
  abbrev pub IsTried : Search → ℕ → ℕ → Type 0
  IsTried s chip link =
      (d : ℕ)
      → m.destination chip link ≡ some d
      → m.is_link chip link ≡ true
      → member d s.to_reach ≡ false

  abbrev pub AllTried : Search → ℕ → Type 0
  AllTried s chip = (link : ℕ) → member link link_order ≡ true → IsTried s chip link

module _ (m : Machine) (root : ℕ) where
  try_destination-Extends :
      (chip link : ℕ) (s : Search)
      → IsGrown m root s
      → IsRouted m root s.tree chip
      → Extends m root s (try_destination m chip link (m.destination chip link) s)
        × IsTried m (try_destination m chip link (m.destination chip link) s) chip link
  try_destination-Extends chip link s g from = elim (Option-cases (m.destination chip link)) [
    | inl e ↦ rw e (Extends-refl m root s g, λ d h. absurd (cc h))
    | inr (d, e) ↦ elim (Bool-cases (member d s.to_reach)) [
      | inr unwanted ↦
          rw (e, unwanted)
            (Extends-refl m root s g, λ d' h works. let same : d' ≡ d = cc h in rw same unwanted)
      | inl wanted ↦ elim (Bool-cases (m.is_link chip link)) [
        | inr down ↦ rw (e, wanted, down) (Extends-refl m root s g, λ d' h works. absurd (cc works))
        | inl works ↦
            rw (e, wanted, works)
              (
                with_chip-Extends m root s g chip link d e wanted works from,
                λ d' h _. let same : d' ≡ d = cc h in rw same (discard_gone d s.to_reach),
              )
      ]
    ]
  ]

  try_links-Extends :
      (chip : ℕ) (links : List ℕ) (s : Search)
      → IsGrown m root s
      → IsRouted m root s.tree chip
      → Extends m root s (try_links m chip links s)
        × ((link : ℕ) → member link links ≡ true → IsTried m (try_links m chip links s) chip link)
  unfolding try_links member
  try_links-Extends chip [] s g from = (Extends-refl m root s g, λ link h. absurd (cc h))
  try_links-Extends chip (link ∷ links) s g from =
      let s1 = try_destination m chip link (m.destination chip link) s in
      let (a, tried) = try_destination-Extends chip link s g from in
      let (b, rest) = try_links-Extends chip links s1 a.grown (a.keeps chip from) in
      (
        Extends-trans m root s s1 (try_links m chip links s1) a b,
        λ l h. elim (==_cases l link) [
          | inl (e, _) ↦ rw e (λ d leads works. b.shrinks d (tried d leads works))
          | inr other ↦ rest l (ground arith)
        ],
      )

  pub try_chips-Extends :
      (chips : List ℕ) (s : Search)
      → IsGrown m root s
      → ((c : ℕ) → member c chips ≡ true → IsRouted m root s.tree c)
      → Extends m root s (try_chips m chips s)
        × ((c : ℕ) → member c chips ≡ true → AllTried m (try_chips m chips s) c)
  unfolding try_chips member
  try_chips-Extends [] s g from = (Extends-refl m root s g, λ c h. absurd (cc h))
  try_chips-Extends (chip ∷ chips) s g from =
      let s1 = try_links m chip link_order s in
      let (a, tried) = try_links-Extends chip link_order s g (from chip (ground arith)) in
      let (b, rest) =
        try_chips-Extends chips s1 a.grown (λ c h. a.keeps c (from c (ground arith))) in
      (
        Extends-trans m root s s1 (try_chips m chips s1) a b,
        λ c h. elim (==_cases c chip) [
          | inl (e, _) ↦
              rw e (λ link is_one d leads works. b.shrinks d (tried link is_one d leads works))
          | inr other ↦ rest c (ground arith)
        ],
      )
