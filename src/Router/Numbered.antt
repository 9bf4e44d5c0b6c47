-- ===== src/Router/Numbered.antt =====
-- The order gives each bit field its own number.
use spi_nnfront_end_common.Common.{
  ℕ, ◌+◌, ◌-◌, ◌≤◌, ◌≡◌, refl, sym, ap, ◌∙◌, inl, inr, Bool, true, false, ◌&&◌, List, [], ◌∷◌, ◌++◌,
  append_assoc, append-nil, ltb, leb, ◌==◌, if◌then◌else◌, Bool-cases, arith,
}
use spi_nnfront_end_common.Common.Numbers.{member}
use spi_nnfront_end_common.Common.Maps.{lookup, assign}
use spi_nnfront_end_common.Router.Bitfields.{BitFieldData, Read, or_empty}
use spi_nnfront_end_common.Router.Order.{
  Sorting, set_sort_index, insert_sorted, sort_descending, remove_item, remove_each, Covering,
  take_item, cover, Ordering, cover_counts, order_cores, number_each, number_left, order_bit_fields,
}

-- What the objects weigh: a number for each identity.
abbrev pub weigh : (ℕ → ℕ) → List BitFieldData → ℕ
weigh f [] = 0
weigh f (b ∷ bs) = f b.identity + weigh f bs

abbrev pub weigh_all : (ℕ → ℕ) → List (ℕ × List BitFieldData) → ℕ
weigh_all f [] = 0
weigh_all f (level ∷ levels) = weigh f level.1 + weigh_all f levels

-- Counts the objects of one identity.
abbrev pub is_it : ℕ → ℕ → ℕ
is_it n m = if n == m then 1 else 0

pub weigh-append :
    (f : ℕ → ℕ) (bs cs : List BitFieldData) → weigh f (bs ++ cs) ≡ weigh f bs + weigh f cs
weigh-append f [] cs = omega arith
weigh-append f (b ∷ bs) cs = omega (arith, weigh-append f bs cs)

abbrev Sub : List BitFieldData → List BitFieldData → Type 0
Sub bs cs = (f : ℕ → ℕ) → weigh f bs ≤ weigh f cs

weigh-remove_item :
    (f : ℕ → ℕ) (item : BitFieldData) (bs : List BitFieldData)
    → 1 ≤ weigh (is_it item.identity) bs
    → weigh f (remove_item item bs) + f item.identity ≡ weigh f bs
unfolding remove_item
weigh-remove_item f item [] h = absurd (omega arith)
weigh-remove_item f item (b ∷ bs) h = elim (Bool-cases (item.identity == b.identity)) [
  | inl e ↦ rw e (let e' : item.identity ≡ b.identity = ground arith in omega (arith, ap f e'))
  | inr e ↦
      let h' = rw e at h in
      let less : 1 ≤ weigh (is_it item.identity) bs = omega arith in
      rw e (omega (arith, weigh-remove_item f item bs less))
]

weigh-remove_each :
    (items bs : List BitFieldData)
    → Sub items bs
    → (f : ℕ → ℕ) → weigh f (remove_each items bs) + weigh f items ≡ weigh f bs
unfolding remove_each
weigh-remove_each [] bs h f = omega arith
weigh-remove_each (item ∷ items) bs h f =
    let there : 1 ≤ weigh (is_it item.identity) bs = ground (arith, h (is_it item.identity)) in
    let rest : Sub items (remove_item item bs) =
      λ g. omega (arith, h g, weigh-remove_item g item bs there) in
    omega (
      arith,
      weigh-remove_item f item bs there,
      weigh-remove_each items (remove_item item bs) rest f,
    )

number_each-append :
    (bs cs : List BitFieldData) (s : Sorting)
    → number_each (bs ++ cs) s ≡ number_each cs (number_each bs s)
unfolding number_each
number_each-append [] cs s = refl
number_each-append (b ∷ bs) cs s = number_each-append bs cs (set_sort_index b s)

-- The bit fields that a pass takes are numbered, and are among those that it runs over.
abbrev Covers : List BitFieldData → Covering → Covering → Type 0
Covers items c c' =
    (taken : List BitFieldData) × (c'.sorting ≡ number_each taken c.sorting)
    × (c'.to_delete ≡ c.to_delete ++ taken)
    × Sub taken items

Covers-cons :
    (cores : List ℕ) (diff : ℕ) (item : BitFieldData) (items : List BitFieldData) (c : Covering)
    (taking : Bool)
    → ((d : Covering) → Covers items d (cover cores diff items d))
    → Covers (item ∷ items) c (cover cores diff items (if taking then take_item item c else c))
unfolding number_each
Covers-cons cores diff item items c true go =
    let (taken, s, d, sub) = go (take_item item c) in
    (item ∷ taken, s, d ∙ append_assoc c.to_delete (item ∷ []) taken, λ f. omega (arith, sub f))
Covers-cons cores diff item items c false go =
    let (taken, s, d, sub) = go c in (taken, s, d, λ f. omega (arith, sub f))

cover-Covers :
    (cores : List ℕ) (diff : ℕ) (items : List BitFieldData) (c : Covering)
    → Covers items c (cover cores diff items c)
unfolding cover number_each
cover-Covers cores diff [] c = ([], refl, sym (append-nil c.to_delete), λ f. omega arith)
cover-Covers cores diff (item ∷ items) c =
    Covers-cons cores diff item items c (member item.processor_id cores && ltb c.covered diff)
      (cover-Covers cores diff items)

pub weigh_all-assign :
    (f : ℕ → ℕ) (key : ℕ) (bs : List BitFieldData) (d : List (ℕ × List BitFieldData))
    → weigh_all f (assign key bs d) + weigh f (or_empty (lookup key d)) ≡ weigh_all f d + weigh f bs
unfolding assign lookup
weigh_all-assign f key bs [] = omega arith
weigh_all-assign f key bs (item ∷ d) = elim (Bool-cases (key == item.0)) [
  | inl e ↦ rw e (omega arith)
  | inr e ↦ rw e (omega (arith, weigh_all-assign f key bs d))
]

-- From one state to the next some bit fields are numbered, and taken from those that are left.
abbrev Takes : Ordering → Ordering → Type 0
Takes o o' =
    (taken : List BitFieldData) × (o'.sorting ≡ number_each taken o.sorting)
    × ((f : ℕ → ℕ) → weigh_all f o'.left + weigh f taken ≡ weigh_all f o.left)

Takes-refl : (o : Ordering) → Takes o o
unfolding number_each
Takes-refl o = ([], refl, λ f. omega arith)

Takes-trans : (o p q : Ordering) → Takes o p → Takes p q → Takes o q
Takes-trans o p q (a, sa, la) (b, sb, lb) = (
  a ++ b,
  sb ∙ ap (number_each b) sa ∙ sym (number_each-append a b o.sorting),
  λ f. omega (arith, la f, lb f, weigh-append f a b),
)

cover_counts-Takes :
    (cores : List ℕ) (diff : ℕ) (counts : List ℕ) (covered : ℕ) (o : Ordering)
    → Takes o (cover_counts cores diff counts covered o)
unfolding cover_counts
cover_counts-Takes cores diff [] covered o = Takes-refl o
cover_counts-Takes cores diff (count ∷ counts) covered o =
    let items = or_empty (lookup count o.left) in
    let start : Covering = record { sorting = o.sorting; covered = covered; to_delete = [] } in
    let c = cover cores diff items start in
    let o' : Ordering = record {
      sorting = c.sorting;
      left = assign count (remove_each c.to_delete items) o.left;
    } in
    let (taken, s, d, sub) = cover-Covers cores diff items start in
    let sub' : Sub c.to_delete items = λ f. omega (arith, sub f, ap (weigh f) d) in
    Takes-trans o o' (cover_counts cores diff counts c.covered o')
      (
        taken,
        s,
        λ f. omega (
          arith,
          weigh_all-assign f count (remove_each c.to_delete items) o.left,
          weigh-remove_each c.to_delete items sub' f,
          ap (weigh f) d,
        ),
      )
      (cover_counts-Takes cores diff counts c.covered o')

order_cores-Takes :
    (coverage_of : List (ℕ × List ℕ)) (costs : List (ℕ × ℕ)) (cores : List ℕ) (o : Ordering)
    → Takes o (order_cores coverage_of costs cores o)
unfolding order_cores
order_cores-Takes coverage_of [] cores o = Takes-refl o
order_cores-Takes coverage_of (core ∷ []) cores o = Takes-refl o
order_cores-Takes coverage_of (worst ∷ next ∷ costs) cores o =
    let now = worst.0 ∷ cores in
    let coverage = sort_descending (λ n. n) (or_empty (lookup worst.0 coverage_of)) in
    let o' = cover_counts now (worst.1 - next.1) coverage 0 o in
    Takes-trans o o' (order_cores coverage_of (next ∷ costs) now o')
      (cover_counts-Takes now (worst.1 - next.1) coverage 0 o)
      (order_cores-Takes coverage_of (next ∷ costs) now o')

weigh_all-insert_sorted :
    (f : ℕ → ℕ) (a : ℕ × List BitFieldData) (d : List (ℕ × List BitFieldData))
    → weigh_all f (insert_sorted (λ level. level.0) a d) ≡ weigh f a.1 + weigh_all f d
unfolding insert_sorted
weigh_all-insert_sorted f a [] = refl
weigh_all-insert_sorted f a (b ∷ d) = elim (Bool-cases (leb b.0 a.0)) [
  | inl e ↦ rw e refl
  | inr e ↦ rw e (omega (arith, weigh_all-insert_sorted f a d))
]

weigh_all-sort_descending :
    (f : ℕ → ℕ) (d : List (ℕ × List BitFieldData))
    → weigh_all f (sort_descending (λ level. level.0) d) ≡ weigh_all f d
unfolding sort_descending
weigh_all-sort_descending f [] = refl
weigh_all-sort_descending f (a ∷ d) = omega (
  arith,
  weigh_all-insert_sorted f a (sort_descending (λ level. level.0) d),
  weigh_all-sort_descending f d,
)

-- The levels one after the other.
abbrev flat : List (ℕ × List BitFieldData) → List BitFieldData
flat [] = []
flat (level ∷ levels) = level.1 ++ flat levels

weigh-flat : (f : ℕ → ℕ) (d : List (ℕ × List BitFieldData)) → weigh f (flat d) ≡ weigh_all f d
weigh-flat f [] = refl
weigh-flat f (level ∷ d) = omega (arith, weigh-append f level.1 (flat d), weigh-flat f d)

number_left_lem :
    (d : List (ℕ × List BitFieldData)) (s : Sorting) → number_left d s ≡ number_each (flat d) s
unfolding number_left number_each
number_left_lem [] s = refl
number_left_lem (level ∷ d) s =
    number_left_lem d (number_each level.1 s) ∙ sym (number_each-append level.1 (flat d) s)

abbrev pub unsorted : Sorting
unsorted = record { sort_index_of = λ n. 0; sort_index = 0 }

-- All bit fields that were read are numbered one after the other.
pub order_bit_fields_lem :
    (costs : List (ℕ × ℕ)) (r : Read)
    → (all : List BitFieldData) × (order_bit_fields costs r ≡ number_each all unsorted)
      × ((f : ℕ → ℕ) → weigh f all ≡ weigh_all f r.bit_fields_by_coverage)
unfolding order_bit_fields
order_bit_fields_lem costs r =
    let start : Ordering = record { sorting = unsorted; left = r.bit_fields_by_coverage } in
    let o =
      order_cores r.processor_coverage_by_bitfield (sort_descending (λ core. core.1) costs) []
        start in
    let levels = sort_descending (λ (level : ℕ × List BitFieldData). level.0) o.left in
    let (taken, s, w) =
      order_cores-Takes r.processor_coverage_by_bitfield (sort_descending (λ core. core.1) costs) []
        start in
    (
      taken ++ flat levels,
      number_left_lem levels o.sorting
          ∙ ap (number_each (flat levels)) s
          ∙ sym (number_each-append taken (flat levels) unsorted),
      λ f. omega (
        arith,
        w f,
        weigh-append f taken (flat levels),
        weigh-flat f levels,
        weigh_all-sort_descending f o.left,
      ),
    )
