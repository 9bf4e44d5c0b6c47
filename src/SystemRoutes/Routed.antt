-- ===== src/SystemRoutes/Routed.antt =====
-- What each step of the search keeps: the chips it has found are those with a way from the Ethernet
-- chip, the others are still to reach.
use spi_nnfront_end_common.Common.{
  ==_cases, ℕ, suc, ◌≤◌, ◌<◌, ◌≡◌, refl, sym, ap, ◌∙◌, ◌⊎◌, inl, inr, true, false, not, ◌&&◌, none,
  some, List, [], ◌∷◌, ◌==◌, ==_refl, Bool-cases, length, arith,
}
use spi_nnfront_end_common.Common.Maps.{lookup, assign, lookup-assign}
use spi_nnfront_end_common.Common.Numbers.{member}
use spi_nnfront_end_common.SystemRoutes.Tree.{Machine, Tree, discard, Search}

-- The tree leads over working links from the Ethernet chip to the chip.
pub data IsRouted (m : Machine) (root : ℕ) (tree : Tree) : ℕ → Type 0 where
  start : IsRouted m root tree root
  over :
      (d c l : ℕ)
      → lookup d tree ≡ some (c, l)
      → m.destination c l ≡ some d
      → m.is_link c l ≡ true
      → IsRouted m root tree c
      → IsRouted m root tree d

-- The number of links from the Ethernet chip.
abbrev pub steps : (m : Machine) (root : ℕ) (tree : Tree) (d : ℕ) → IsRouted m root tree d → ℕ
steps m root tree d start = 0
steps m root tree d (over _ c l entry leads link before) = suc (steps m root tree c before)

pub steps_unique :
    (m : Machine) (root : ℕ) (tree : Tree)
    → lookup root tree ≡ none
    → (d e : ℕ) (p : IsRouted m root tree d) (q : IsRouted m root tree e) → d ≡ e
    → steps m root tree d p ≡ steps m root tree e q
steps_unique m root tree unset d e start start same = refl
steps_unique m root tree unset d e start (over _ c l entry leads link before) same =
    absurd (cc (sym entry ∙ ap (λ k. lookup k tree) (sym same) ∙ unset))
steps_unique m root tree unset d e (over _ c l entry leads link before) start same =
    absurd (cc (sym entry ∙ ap (λ k. lookup k tree) same ∙ unset))
steps_unique m root tree unset d e (over _ c l entry leads link before)
      (over _ c' l' entry' leads' link' before') same =
    let sources : some (c, l) ≡ some (c', l') = sym entry ∙ ap (λ k. lookup k tree) same ∙ entry' in
    let source : c ≡ c' = cc sources in
    ap suc (steps_unique m root tree unset c c' before before' source)

pub length-assign_new :
    (d : ℕ) (v : ℕ × ℕ) (tree : Tree)
    → lookup d tree ≡ none
    → length (assign d v tree) ≡ suc (length tree)
unfolding lookup assign
length-assign_new d v [] h = refl
length-assign_new d v (entry ∷ tree) h = elim (Bool-cases (d == entry.0)) [
  | inl same ↦ absurd (ground arith)
  | inr other ↦ rw other (ap suc (length-assign_new d v tree (ground arith)))
]

pub member-discard :
    (k n : ℕ) (ns : List ℕ) → member k (discard n ns) ≡ (not (k == n) && member k ns)
unfolding member discard
member-discard k n [] = elim (Bool-cases (k == n)) [ inl e ↦ rw e refl | inr e ↦ rw e refl ]
member-discard k n (j ∷ ns) = ground (arith, member-discard k n ns)

pub discard_gone : (n : ℕ) (ns : List ℕ) → member n (discard n ns) ≡ false
discard_gone n ns = member-discard n n ns ∙ rw (==_refl n) refl

length-discard : (n : ℕ) (ns : List ℕ) → length (discard n ns) ≤ length ns
unfolding discard
length-discard n [] = omega arith
length-discard n (j ∷ ns) = ground (arith, length-discard n ns)

pub length-discard-member :
    (n : ℕ) (ns : List ℕ) → member n ns ≡ true → length (discard n ns) < length ns
unfolding member discard
length-discard-member n [] h = cc
length-discard-member n (j ∷ ns) h = elim (Bool-cases (n == j)) [
  | inl e ↦ rw e (omega (arith, length-discard n ns))
  | inr e ↦ rw e (omega (arith, length-discard-member n ns (ground arith)))
]

module _ (m : Machine) (root : ℕ) where
  pub routed-assign :
      (d : ℕ) (v : ℕ × ℕ) (tree : Tree) (e : ℕ)
      → lookup d tree ≡ none
      → (p : IsRouted m root tree e)
      → (p' : IsRouted m root (assign d v tree) e) × (steps m root (assign d v tree) e p'
          ≡ steps m root tree e p)
  routed-assign d v tree e unset start = (start, refl)
  routed-assign d v tree e unset (over _ c l entry leads link before) =
      let other : (e == d) ≡ false = elim (==_cases e d) [
        | inl (e', _) ↦ absurd (cc (sym entry ∙ ap (λ k. lookup k tree) e' ∙ unset))
        | inr other ↦ other
      ] in
      let (before', same_steps) = routed-assign d v tree c unset before in
      (over e c l (lookup-assign e d v tree ∙ rw other entry) leads link before', ap suc same_steps)

  pub IsRouted-cases :
      (tree : Tree) (e : ℕ)
      → IsRouted m root tree e
      → (e ≡ root) ⊎ ((v : ℕ × ℕ) × (lookup e tree ≡ some v))
  IsRouted-cases tree e start = inl refl
  IsRouted-cases tree e (over _ c l entry leads link before) = inr ((c, l), entry)

  -- The state of the search between two chips or links.
  pub record IsGrown (s : Search) : Type 0 where
    pub covered :
        (d : ℕ)
        → member d (m.chips_by_ethernet root) ≡ true
        → (member d s.to_reach ≡ true) ⊎ IsRouted m root s.tree d
    pub reached : (d : ℕ) → member d s.found ≡ true → IsRouted m root s.tree d
    pub entered : (d : ℕ) (v : ℕ × ℕ) → lookup d s.tree ≡ some v → IsRouted m root s.tree d
    pub unset : (d : ℕ) → member d s.to_reach ≡ true → lookup d s.tree ≡ none
    pub no_root : member root s.to_reach ≡ false
    pub root_unset : lookup root s.tree ≡ none
    pub short : (d : ℕ) (p : IsRouted m root s.tree d) → steps m root s.tree d p ≤ length s.tree
