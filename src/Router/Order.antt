-- ===== src/Router/Order.antt =====
-- The order in which bit fields are merged (`_order_bit_fields` of spinn_front_end_common/interface/
-- interface_functions/host_bit_field_router_compressor.py).
use spi_nnfront_end_common.Common.{
  ℕ, ◌+◌, ◌-◌, ◌&&◌, List, [], ◌∷◌, ◌++◌, ltb, leb, ◌==◌, if◌then◌else◌,
}
use spi_nnfront_end_common.Common.Numbers.{member}
use spi_nnfront_end_common.Common.Maps.{lookup, assign}
use spi_nnfront_end_common.Router.Bitfields.{BitFieldData, Read, or_empty}

-- `sort_index` of each object, and the variable `sort_index`.
pub record Sorting : Type 0 where
  pub sort_index_of : ℕ → ℕ
  pub sort_index : ℕ

abbrev pub set_sort_index : BitFieldData → Sorting → Sorting
set_sort_index item s = record {
  sort_index_of = λ n. if n == item.identity then s.sort_index else s.sort_index_of n;
  sort_index = s.sort_index + 1;
}

-- `sorted(…, reverse=True)` by a key: equal ones stay in their order.
module _ {A : Type 0} (value : A → ℕ) where
  unfoldable pub insert_sorted : A → List A → List A
  insert_sorted a [] = a ∷ []
  insert_sorted a (b ∷ bs) = if leb (value b) (value a) then a ∷ b ∷ bs else b ∷ insert_sorted a bs

  unfoldable pub sort_descending : List A → List A
  sort_descending [] = []
  sort_descending (a ∷ as') = insert_sorted a (sort_descending as')

-- `list.remove`: the first that is the object.
unfoldable pub remove_item : BitFieldData → List BitFieldData → List BitFieldData
remove_item item [] = []
remove_item item (b ∷ bs) = if item.identity == b.identity then bs else b ∷ remove_item item bs

unfoldable pub remove_each : List BitFieldData → List BitFieldData → List BitFieldData
remove_each [] bs = bs
remove_each (item ∷ items) bs = remove_each items (remove_item item bs)

-- The loop over the bit fields of one coverage, with `covered` and `to_delete`.
pub record Covering : Type 0 where
  pub sorting : Sorting
  pub covered : ℕ
  pub to_delete : List BitFieldData

abbrev pub take_item : BitFieldData → Covering → Covering
take_item item c = record {
  sorting = set_sort_index item c.sorting;
  covered = c.covered + 1;
  to_delete = c.to_delete ++ item ∷ [];
}

unfoldable pub cover : List ℕ → ℕ → List BitFieldData → Covering → Covering
cover cores_to_add_for diff [] c = c
cover cores_to_add_for diff (item ∷ items) c = cover cores_to_add_for diff items (
    if member item.processor_id cores_to_add_for && ltb c.covered diff then take_item item c else c)

-- What is sorted and what is left, by coverage.
pub record Ordering : Type 0 where
  pub sorting : Sorting
  pub left : List (ℕ × List BitFieldData)

-- The loop over the coverages of a core.
unfoldable pub cover_counts : List ℕ → ℕ → List ℕ → ℕ → Ordering → Ordering
cover_counts cores_to_add_for diff [] covered o = o
cover_counts cores_to_add_for diff (redundant_count ∷ counts) covered o =
    let items = or_empty (lookup redundant_count o.left) in
    let c =
      cover cores_to_add_for diff items
        (record { sorting = o.sorting; covered = covered; to_delete = [] }) in
    cover_counts cores_to_add_for diff counts c.covered (record {
      sorting = c.sorting;
      left = assign redundant_count (remove_each c.to_delete items) o.left;
    })

-- The loop over all cores but the last, the worst ones first.
unfoldable pub order_cores : List (ℕ × List ℕ) → List (ℕ × ℕ) → List ℕ → Ordering → Ordering
order_cores coverage_of [] cores_to_add_for o = o
order_cores coverage_of (core ∷ []) cores_to_add_for o = o
order_cores coverage_of (worst ∷ next ∷ cores) cores_to_add_for o =
    let now = worst.0 ∷ cores_to_add_for in
    let coverage = sort_descending (λ n. n) (or_empty (lookup worst.0 coverage_of)) in
    order_cores coverage_of (next ∷ cores) now (cover_counts now (worst.1 - next.1) coverage 0 o)

-- "take left overs"
unfoldable pub number_each : List BitFieldData → Sorting → Sorting
number_each [] s = s
number_each (item ∷ items) s = number_each items (set_sort_index item s)

unfoldable pub number_left : List (ℕ × List BitFieldData) → Sorting → Sorting
number_left [] s = s
number_left (level ∷ levels) s = number_left levels (number_each level.1 s)

-- The cores with their costs, and what was read: the order, and `_n_bitfields` as its `sort_index`.
unfoldable pub order_bit_fields : List (ℕ × ℕ) → Read → Sorting
order_bit_fields core_cost_map r =
    let o =
      order_cores r.processor_coverage_by_bitfield (sort_descending (λ core. core.1) core_cost_map)
        []
        (record {
          sorting = record { sort_index_of = λ n. 0; sort_index = 0 };
          left = r.bit_fields_by_coverage;
        }) in
    number_left (sort_descending (λ level. level.0) o.left) o.sorting
