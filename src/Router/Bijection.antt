-- ===== src/Router/Bijection.antt =====
-- The numbers of the bit fields that were read: each below their count, and none twice.
use native.Mathlib.Nat.{zero-add}
use spi_nnfront_end_common.Common.{
  ℕ, zero, suc, ◌+◌, ◌≤◌, ◌<◌, ◌≡◌, refl, sym, ap, ◌∙◌, inl, inr, some, List, [], ◌∷◌, ◌++◌, ◌==◌,
  ==_refl, ltb, ltb→lt, ltb→le, Bool-cases, length, get_elem?, arith,
}
use spi_nnfront_end_common.Common.Maps.{lookup}
use spi_nnfront_end_common.Router.Bitfields.{
  BitFieldData, n_redundant_packets, Read, nothing_read, or_empty, append_at, keep_bit_field,
  read_filter, read_filters, read_cores,
}
use spi_nnfront_end_common.Router.Order.{Sorting, set_sort_index, number_each, order_bit_fields}
use spi_nnfront_end_common.Router.Numbered.{
  weigh, weigh_all, is_it, weigh-append, weigh_all-assign, unsorted, order_bit_fields_lem,
}

-- The weight of the identities below `n`.
abbrev below : (ℕ → ℕ) → ℕ → ℕ
below f zero = 0
below f (suc n) = f n + below f n

weigh_all-append_at :
    (f : ℕ → ℕ) (key : ℕ) (b : BitFieldData) (d : List (ℕ × List BitFieldData))
    → weigh_all f (append_at key b d) ≡ weigh_all f d + f b.identity
unfolding append_at
weigh_all-append_at f key b d = omega (
  arith,
  weigh_all-assign f key (or_empty (lookup key d) ++ b ∷ []) d,
  weigh-append f (or_empty (lookup key d)) (b ∷ []),
)

-- Each object that was read is once in the lists by coverage, and once in those by key.
abbrev IsComplete : Read → Type 0
IsComplete r =
    (f : ℕ → ℕ)
    → (weigh_all f r.bit_fields_by_coverage ≡ below f r.n_read)
      × (weigh_all f r.bit_fields_by_key ≡ below f r.n_read)

keep_bit_field-IsComplete :
    (b : BitFieldData) (r : Read)
    → b.identity ≡ r.n_read
    → IsComplete r
    → IsComplete (keep_bit_field b r)
unfolding keep_bit_field
keep_bit_field-IsComplete b r e c f =
    let n : below f (r.n_read + 1) ≡ f r.n_read + below f r.n_read = ground arith in
    (
      omega (
        arith,
        n,
        c f,
        ap f e,
        weigh_all-append_at f (n_redundant_packets b) b r.bit_fields_by_coverage,
      ),
      omega (arith, n, c f, ap f e, weigh_all-append_at f b.master_pop_key b r.bit_fields_by_key),
    )

module _ (memory : ℕ → ℕ) where
  read_filters-IsComplete :
      (n processor address : ℕ) (r : Read)
      → IsComplete r
      → IsComplete (read_filters memory n processor address r)
  unfolding read_filters read_filter
  read_filters-IsComplete zero processor address r c = c
  read_filters-IsComplete (suc n) processor address r c =
      read_filters-IsComplete n processor (address + 16) _
        (keep_bit_field-IsComplete (read_filter memory r.n_read processor address) r refl c)

  pub read_cores-IsComplete :
      (cores : List (ℕ × ℕ)) (r : Read) → IsComplete r → IsComplete (read_cores memory cores r)
  unfolding read_cores
  read_cores-IsComplete [] r c = c
  read_cores-IsComplete (core ∷ cores) r c =
      read_cores-IsComplete cores _
        (read_filters-IsComplete (memory core.1) core.0 (core.1 + 4) r c)

number_each-other :
    (bs : List BitFieldData) (s : Sorting) (n : ℕ)
    → weigh (is_it n) bs ≡ 0
    → (number_each bs s).sort_index_of n ≡ s.sort_index_of n
unfolding number_each
number_each-other [] s n h = refl
number_each-other (b ∷ bs) s n h = elim (Bool-cases (n == b.identity)) [
  | inl e ↦ absurd (let h' = rw e at h in omega arith)
  | inr e ↦
      let h' = rw e at h in
      let rest : weigh (is_it n) bs ≡ 0 = omega arith in
      number_each-other bs (set_sort_index b s) n rest ∙ rw e refl
]

-- The number of an object is its place.
number_each-at :
    (bs : List BitFieldData) (s : Sorting) (j : ℕ) (b : BitFieldData)
    → get_elem? bs j ≡ some b
    → weigh (is_it b.identity) bs ≤ 1
    → (number_each bs s).sort_index_of b.identity ≡ s.sort_index + j
unfolding number_each
number_each-at [] s j b at once = cc
number_each-at (a ∷ bs) s zero b at once =
    let e : a ≡ b = cc in
    let once' = rw (e, ==_refl b.identity) at once in
    let none_else : weigh (is_it b.identity) bs ≡ 0 = omega arith in
    number_each-other bs (set_sort_index a s) b.identity none_else
    ∙ rw (e, ==_refl b.identity) (omega arith)
number_each-at (a ∷ bs) s (suc j) b at once =
    omega (arith, number_each-at bs (set_sort_index a s) j b at (omega arith))

number_each-sort_index :
    (bs : List BitFieldData) (s : Sorting)
    → (number_each bs s).sort_index ≡ s.sort_index + length bs
unfolding number_each
number_each-sort_index [] s = omega arith
number_each-sort_index (b ∷ bs) s = omega (arith, number_each-sort_index bs (set_sort_index b s))

-- Where an object of the identity is.
abbrev IsAt : ℕ → List BitFieldData → Type 0
IsAt n bs =
    (j : ℕ) × (b : BitFieldData) × (get_elem? bs j ≡ some b) × (b.identity ≡ n) × (j < length bs)

weigh-IsAt : (n : ℕ) (bs : List BitFieldData) → 1 ≤ weigh (is_it n) bs → IsAt n bs
weigh-IsAt n [] h = absurd (omega arith)
weigh-IsAt n (b ∷ bs) h = elim (Bool-cases (n == b.identity)) [
  | inl e ↦ (0, b, refl, ground arith, omega arith)
  | inr e ↦
      let h' = rw e at h in
      let rest : 1 ≤ weigh (is_it n) bs = omega arith in
      let (j, c, at, same, lt) = weigh-IsAt n bs rest in (suc j, c, at, same, omega arith)
]

below-is_it_none : (n m : ℕ) → m ≤ n → below (is_it n) m ≡ 0
below-is_it_none n zero h = refl
below-is_it_none n (suc m) h = ground (arith, below-is_it_none n m)

below-is_it : (n m : ℕ) → n < m → below (is_it n) m ≡ 1
below-is_it n zero h = absurd (omega arith)
below-is_it n (suc m) h = elim (Bool-cases (n == m)) [
  | inl e ↦
      rw e (let same : n ≡ m = ground arith in omega (arith, below-is_it_none n m (omega arith)))
  | inr e ↦ rw e (let less : n < m = ground arith in omega (arith, below-is_it n m less))
]

below_ones : (m : ℕ) → below (λ n. 1) m ≡ m
below_ones zero = refl
below_ones (suc m) = omega (arith, below_ones m)

weigh_ones : (bs : List BitFieldData) → weigh (λ n. 1) bs ≡ length bs
weigh_ones [] = refl
weigh_ones (b ∷ bs) = omega (arith, weigh_ones bs)

-- The bit fields of `n` identities are numbered with the numbers below `n`.
pub record IsNumbering (s : Sorting) (n : ℕ) : Type 0 where
  pub count : s.sort_index ≡ n
  pub bounded : (i : ℕ) → i < n → s.sort_index_of i < n
  pub different : (i j : ℕ) → i < n → j < n → s.sort_index_of i ≡ s.sort_index_of j → i ≡ j

module _ (all : List BitFieldData) (n : ℕ) (size : length all ≡ n)
    (once : (i : ℕ) → i < n → weigh (is_it i) all ≡ 1) where
  placed :
      (i : ℕ)
      → i < n
      → (j : ℕ) × (b : BitFieldData) × (get_elem? all j ≡ some b)
        × (b.identity ≡ i)
        × (j < n)
        × ((number_each all unsorted).sort_index_of i ≡ j)
  placed i lt =
      let (j, b, at, same, within) = weigh-IsAt i all (omega (arith, once i lt)) in
      let few : weigh (is_it b.identity) all ≤ 1 = rw same (omega (arith, once i lt)) in
      let index = number_each-at all unsorted j b at few in
      (j, b, at, same, omega arith, rw (sym same) (omega (arith, index)))

  numbered : IsNumbering (number_each all unsorted) n
  numbered = record {
    count = omega (arith, number_each-sort_index all unsorted);
    bounded = λ i lt. let (j, b, at, same, within, index) = placed i lt in omega arith;
    different = λ i k p q e.
        let (j, b, at, same, within, index) = placed i p in
        let (j', b', at', same', within', index') = placed k q in
        let one : j ≡ j' = omega arith in
        let found : some b ≡ some b' = sym at ∙ ap (get_elem? all) one ∙ at' in
        let object : b ≡ b' = cc in sym same ∙ ap (λ c. c.identity) object ∙ same';
  }

-- Whatever the memory holds and the cores cost, each bit field that is read gets its own sort index,
-- and the sort indices are the numbers below the number of bit fields, which `_n_bitfields` is.
pub order_bit_fields-IsNumbering :
    (memory : ℕ → ℕ) (cores costs : List (ℕ × ℕ))
    → IsNumbering
        (order_bit_fields costs (read_cores memory cores nothing_read))
        (read_cores memory cores nothing_read).n_read
order_bit_fields-IsNumbering memory cores costs =
    let r = read_cores memory cores nothing_read in
    let complete = read_cores-IsComplete memory cores nothing_read (λ f. (refl, refl)) in
    let (all, e, w) = order_bit_fields_lem costs r in
    let size : length all ≡ r.n_read =
      omega (arith, weigh_ones all, w (λ n. 1), complete (λ n. 1), below_ones r.n_read) in
    let once : (i : ℕ) → i < r.n_read → weigh (is_it i) all ≡ 1 =
      λ i lt. omega (arith, w (is_it i), complete (is_it i), below-is_it i r.n_read lt) in
    rw e (numbered all r.n_read size once)

below-is_it-le : (n m : ℕ) → below (is_it n) m ≤ 1
below-is_it-le n m = elim (Bool-cases (ltb n m)) [
  | inl e ↦ omega (arith, below-is_it n m (ltb→lt n m e))
  | inr e ↦ omega (arith, below-is_it_none n m (ltb→le n m e))
]

-- The bit fields in their order, each at its number.
pub order_bit_fields-places :
    (memory : ℕ → ℕ) (cores costs : List (ℕ × ℕ))
    → (all : List BitFieldData) × (length all ≡ (read_cores memory cores nothing_read).n_read)
      × ((j : ℕ) (b : BitFieldData)
          → get_elem? all j ≡ some b
          → (order_bit_fields costs (read_cores memory cores nothing_read)).sort_index_of b.identity
            ≡ j)
      × ((f : ℕ → ℕ)
          → weigh f all ≡ weigh_all f (read_cores memory cores nothing_read).bit_fields_by_key)
order_bit_fields-places memory cores costs =
    let r = read_cores memory cores nothing_read in
    let complete = read_cores-IsComplete memory cores nothing_read (λ f. (refl, refl)) in
    let (all, e, w) = order_bit_fields_lem costs r in
    (
      all,
      omega (arith, weigh_ones all, w (λ n. 1), complete (λ n. 1), below_ones r.n_read),
      λ j b at.
          let few : weigh (is_it b.identity) all ≤ 1 = omega (
            arith,
            w (is_it b.identity),
            complete (is_it b.identity),
            below-is_it-le b.identity r.n_read,
          ) in
          ap (λ s. s.sort_index_of b.identity) e
          ∙ number_each-at all unsorted j b at few
          ∙ zero-add j,
      λ f. omega (arith, w f, complete f),
    )
