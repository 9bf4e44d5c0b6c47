-- ===== src/Router/Marked.antt =====
-- As many bit fields are marked as merged as the midpoint says.
use spi_nnfront_end_common.Common.{
  ℕ, zero, suc, ◌+◌, ◌-◌, ◌≤◌, ◌<◌, ◌≡◌, refl, ap, inl, inr, some, List, [], ◌∷◌, ltb,
  if◌then◌else◌, Bool-cases, length, length-append, get_elem?, arith,
}
use spi_nnfront_end_common.Router.Bitfields.{BitFieldData, nothing_read, read_cores}
use spi_nnfront_end_common.Router.Order.{order_bit_fields}
use spi_nnfront_end_common.Router.Merge.{merged_of, remove_merged_bitfields_from_cores}
use spi_nnfront_end_common.Router.Numbered.{weigh, weigh_all}
use spi_nnfront_end_common.Router.Bijection.{order_bit_fields-places}

-- One for each number below the midpoint.
abbrev is_below : ℕ → ℕ → ℕ
is_below m i = if ltb i m then 1 else 0

length-merged_of :
    (sort_index_of : ℕ → ℕ) (m : ℕ) (items : List BitFieldData)
    → length (merged_of sort_index_of (some m) items)
      ≡ weigh (λ i. is_below m (sort_index_of i)) items
unfolding merged_of
length-merged_of sort_index_of m [] = refl
length-merged_of sort_index_of m (item ∷ items) =
    elim (Bool-cases (ltb (sort_index_of item.identity) m)) [
      | inl e ↦ rw e (omega (arith, length-merged_of sort_index_of m items))
      | inr e ↦ rw e (omega (arith, length-merged_of sort_index_of m items))
    ]

length-remove_merged_all :
    (sort_index_of : ℕ → ℕ) (m : ℕ) (by_key : List (ℕ × List BitFieldData))
    → length (remove_merged_bitfields_from_cores sort_index_of (some m) by_key)
      ≡ weigh_all (λ i. is_below m (sort_index_of i)) by_key
unfolding remove_merged_bitfields_from_cores
length-remove_merged_all sort_index_of m [] = refl
length-remove_merged_all sort_index_of m (entry ∷ by_key) = omega (
  arith,
  length-append (merged_of sort_index_of (some m) entry.1)
      (remove_merged_bitfields_from_cores sort_index_of (some m) by_key),
  length-merged_of sort_index_of m entry.1,
  length-remove_merged_all sort_index_of m by_key,
)

-- The weight of the numbers from `k` on.
abbrev span : (ℕ → ℕ) → ℕ → ℕ → ℕ
span g k zero = 0
span g k (suc n) = g k + span g (k + 1) n

weigh_indices :
    (g sort_index_of : ℕ → ℕ) (k : ℕ) (all : List BitFieldData)
    → ((j : ℕ) (b : BitFieldData) → get_elem? all j ≡ some b → sort_index_of b.identity ≡ k + j)
    → weigh (λ i. g (sort_index_of i)) all ≡ span g k (length all)
weigh_indices g sort_index_of k [] h = refl
weigh_indices g sort_index_of k (b ∷ all) h =
    let first : sort_index_of b.identity ≡ k = omega (arith, h 0 b refl) in
    omega (
      arith,
      ap g first,
      weigh_indices g sort_index_of (k + 1) all (λ j c at. omega (arith, h (suc j) c at)),
    )

span-is_below_none : (m k n : ℕ) → m ≤ k → span (is_below m) k n ≡ 0
span-is_below_none m k zero p = refl
span-is_below_none m k (suc n) p = ground (arith, span-is_below_none m (k + 1) n (omega arith))

span-is_below : (m k n : ℕ) → k ≤ m → m ≤ k + n → span (is_below m) k n ≡ m - k
span-is_below m k zero p q = omega arith
span-is_below m k (suc n) p q = elim (Bool-cases (ltb k m)) [
  | inl e ↦ rw e (
      let lt : k < m = ground arith in
      omega (arith, span-is_below m (k + 1) n (omega arith) (omega arith)))
  | inr e ↦
      rw e (
        let ge : m ≤ k = ground arith in
        omega (arith, span-is_below_none m (k + 1) n (omega arith)))
]

-- Whatever the memory holds and the cores cost, marking for a midpoint up to the number of bit fields
-- marks exactly as many bit fields as the midpoint says.
pub length-remove_merged_bitfields :
    (memory : ℕ → ℕ) (cores costs : List (ℕ × ℕ)) (m : ℕ)
    → m ≤ (read_cores memory cores nothing_read).n_read
    → length (
        remove_merged_bitfields_from_cores
          (order_bit_fields costs (read_cores memory cores nothing_read)).sort_index_of
          (some m)
          (read_cores memory cores nothing_read).bit_fields_by_key)
      ≡ m
length-remove_merged_bitfields memory cores costs m h =
    let r = read_cores memory cores nothing_read in
    let index = (order_bit_fields costs r).sort_index_of in
    let (all, size, places, w) = order_bit_fields-places memory cores costs in
    omega (
      arith,
      length-remove_merged_all index m r.bit_fields_by_key,
      w (λ i. is_below m (index i)),
      weigh_indices (is_below m) index 0 all (λ j b at. omega (arith, places j b at)),
      span-is_below m 0 (length all) (omega arith) (omega arith),
    )
