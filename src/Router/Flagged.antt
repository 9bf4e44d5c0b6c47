-- ===== src/Router/Flagged.antt =====
-- What is written for the bit fields that are merged, and where.
use spi_nnfront_end_common.Common.{
  ℕ, zero, suc, ◌+◌, ◌/◌, ◌%◌, ◌^◌, ◌<◌, ◌≡◌, refl, sym, ap, ◌∙◌, ◌⊎◌, inl, inr, true, some, List,
  [], ◌∷◌, ◌++◌, ltb, ltb→lt, lt→ltb, Bool-cases, ◌==◌, All, All-append, arith,
}
use spi_nnfront_end_common.Common.Maps.{lookup, assign}
use spi_nnfront_end_common.Router.Bitfields.{
  BitFieldData, Read, nothing_read, or_empty, append_at, keep_bit_field, read_filter, read_filters,
  read_cores,
}
use spi_nnfront_end_common.Router.Merge.{set_merged, merged_of, remove_merged_bitfields_from_cores}

abbrev pub IsIn : {A : Type 0} → A → List A → Type 0
IsIn a [] = ⊥
IsIn a (x ∷ xs) = (x ≡ a) ⊎ IsIn a xs

IsIn-left : {A : Type 0} (a : A) (xs ys : List A) → IsIn a xs → IsIn a (xs ++ ys)
IsIn-left a [] ys h = absurd h
IsIn-left a (x ∷ xs) ys (inl same) = inl same
IsIn-left a (x ∷ xs) ys (inr later) = inr (IsIn-left a xs ys later)

IsIn-right : {A : Type 0} (a : A) (xs ys : List A) → IsIn a ys → IsIn a (xs ++ ys)
IsIn-right a [] ys h = h
IsIn-right a (x ∷ xs) ys h = inr (IsIn-right a xs ys h)

-- The bit field is one of those that were read.
abbrev pub WasRead : BitFieldData → List (ℕ × List BitFieldData) → Type 0
WasRead b [] = ⊥
WasRead b (entry ∷ by_key) = IsIn b entry.1 ⊎ WasRead b by_key

-- The word with its top bit set, and otherwise as it was.
abbrev pub IsFlagged : ℕ → ℕ → Type 0
IsFlagged word word' = ((word' / 2 ^ 31) % 2 ≡ 1) × (word' % 2 ^ 31 ≡ word % 2 ^ 31)

set_merged-IsFlagged : (word : ℕ) → IsFlagged word (set_merged word)
set_merged-IsFlagged word = elim (Bool-cases ((word / 2 ^ 31) % 2 == 1)) [
  | inl e ↦ rw e (ground arith, refl)
  | inr e ↦ rw e (ground arith, omega arith)
]

IsIn-append : {A : Type 0} (a : A) (xs ys : List A) → IsIn a (xs ++ ys) → IsIn a xs ⊎ IsIn a ys
IsIn-append a [] ys h = inr h
IsIn-append a (x ∷ xs) ys (inl same) = inl (inl same)
IsIn-append a (x ∷ xs) ys (inr later) = elim (IsIn-append a xs ys later) [
  | inl left ↦ inl (inr left)
  | inr right ↦ inr right
]

-- The word that is written for a bit field.
abbrev IsMark : BitFieldData → ℕ × ℕ → Type 0
IsMark b w = (w.0 ≡ b.n_atoms_address) × IsFlagged b.n_atoms_word w.1

module _ (sort_index_of : ℕ → ℕ) (m : ℕ) where
  merged_of_sound :
      (items : List BitFieldData) (w : ℕ × ℕ)
      → IsIn w (merged_of sort_index_of (some m) items)
      → (b : BitFieldData) × IsIn b items × (sort_index_of b.identity < m) × IsMark b w
  unfolding merged_of
  merged_of_sound [] w = λ h. absurd h
  merged_of_sound (item ∷ items) w = elim (Bool-cases (ltb (sort_index_of item.identity) m)) [
    | inr above ↦
        rw above
          λ h. let (b, there, low, mark) = merged_of_sound items w h in (b, inr there, low, mark)
    | inl below ↦ rw below λ h. elim h [
      | inl same ↦ (
        item,
        inl refl,
        ltb→lt _ _ below,
        rw (sym same) (refl, set_merged-IsFlagged item.n_atoms_word),
      )
      | inr later ↦
          let (b, there, low, mark) = merged_of_sound items w later in (b, inr there, low, mark)
    ]
  ]

  merged_of_complete :
      (items : List BitFieldData) (b : BitFieldData)
      → IsIn b items
      → sort_index_of b.identity < m
      → (w : ℕ × ℕ) × IsIn w (merged_of sort_index_of (some m) items) × IsMark b w
  unfolding merged_of
  merged_of_complete [] b h low = absurd h
  merged_of_complete (item ∷ items) b (inl same) low =
      let below : ltb (sort_index_of item.identity) m ≡ true = rw same (lt→ltb _ _ low) in
      (
        (item.n_atoms_address, set_merged item.n_atoms_word),
        rw below (inl refl),
        rw (sym same) (refl, set_merged-IsFlagged item.n_atoms_word),
      )
  merged_of_complete (item ∷ items) b (inr later) low =
      let (w, there, mark) = merged_of_complete items b later low in
      elim (Bool-cases (ltb (sort_index_of item.identity) m)) [
        | inl below ↦ (w, rw below (inr there), mark)
        | inr above ↦ (w, rw above there, mark)
      ]

  remove_sound :
      (by_key : List (ℕ × List BitFieldData)) (w : ℕ × ℕ)
      → IsIn w (remove_merged_bitfields_from_cores sort_index_of (some m) by_key)
      → (b : BitFieldData) × WasRead b by_key × (sort_index_of b.identity < m) × IsMark b w
  unfolding remove_merged_bitfields_from_cores
  remove_sound [] w h = absurd h
  remove_sound (entry ∷ by_key) w h =
      elim (IsIn-append w (merged_of sort_index_of (some m) entry.1) _ h) [
        | inl here ↦
            let (b, there, low, mark) = merged_of_sound entry.1 w here in (b, inl there, low, mark)
        | inr later ↦
            let (b, there, low, mark) = remove_sound by_key w later in (b, inr there, low, mark)
      ]

  remove_complete :
      (by_key : List (ℕ × List BitFieldData)) (b : BitFieldData)
      → WasRead b by_key
      → sort_index_of b.identity < m
      → (w : ℕ × ℕ) × IsIn w (remove_merged_bitfields_from_cores sort_index_of (some m) by_key)
        × IsMark b w
  unfolding remove_merged_bitfields_from_cores
  remove_complete [] b h low = absurd h
  remove_complete (entry ∷ by_key) b (inl here) low =
      let (w, there, mark) = merged_of_complete entry.1 b here low in
      (w, IsIn-left w _ _ there, mark)
  remove_complete (entry ∷ by_key) b (inr later) low =
      let (w, there, mark) = remove_complete by_key b later low in
      (w, IsIn-right w (merged_of sort_index_of (some m) entry.1) _ there, mark)

module _ (memory : ℕ → ℕ) where
  -- The word of the number of atoms is in the memory, behind the word of the key.
  abbrev pub IsStored : BitFieldData → Type 0
  IsStored b =
      (memory b.n_atoms_address ≡ b.n_atoms_word)
      × ((a : ℕ) × (b.n_atoms_address ≡ a + 4) × (memory a ≡ b.master_pop_key))

  abbrev AllStored : List (ℕ × List BitFieldData) → Type 0
  AllStored by_key = All (λ entry. All IsStored entry.1) by_key

  IsStored-at :
      (key : ℕ) (by_key : List (ℕ × List BitFieldData))
      → AllStored by_key
      → All IsStored (or_empty (lookup key by_key))
  unfolding lookup
  IsStored-at key [] h = tt
  IsStored-at key (entry ∷ by_key) h = elim (Bool-cases (key == entry.0)) [
    | inl e ↦ rw e h.0
    | inr e ↦ rw e (IsStored-at key by_key h.1)
  ]

  AllStored-assign :
      (key : ℕ) (items : List BitFieldData) (by_key : List (ℕ × List BitFieldData))
      → All IsStored items
      → AllStored by_key
      → AllStored (assign key items by_key)
  unfolding assign
  AllStored-assign key items [] new h = (new, tt)
  AllStored-assign key items (entry ∷ by_key) new h = elim (Bool-cases (key == entry.0)) [
    | inl e ↦ rw e (new, h.1)
    | inr e ↦ rw e (h.0, AllStored-assign key items by_key new h.1)
  ]

  keep_bit_field-AllStored :
      (b : BitFieldData) (r : Read)
      → IsStored b
      → AllStored r.bit_fields_by_key
      → AllStored (keep_bit_field b r).bit_fields_by_key
  unfolding keep_bit_field append_at
  keep_bit_field-AllStored b r s h =
      AllStored-assign b.master_pop_key _ r.bit_fields_by_key
        (All-append IsStored (or_empty (lookup b.master_pop_key r.bit_fields_by_key)) (b ∷ [])
          (IsStored-at b.master_pop_key r.bit_fields_by_key h) (s, tt))
        h

  read_filters-AllStored :
      (n p address : ℕ) (r : Read)
      → AllStored r.bit_fields_by_key
      → AllStored (read_filters memory n p address r).bit_fields_by_key
  unfolding read_filters read_filter
  read_filters-AllStored zero p address r h = h
  read_filters-AllStored (suc n) p address r h = read_filters-AllStored n p (address + 16) _ (
      keep_bit_field-AllStored (read_filter memory r.n_read p address) r
        (refl, (address, refl, refl)) h)

  read_cores-AllStored :
      (cores : List (ℕ × ℕ)) (r : Read)
      → AllStored r.bit_fields_by_key
      → AllStored (read_cores memory cores r).bit_fields_by_key
  unfolding read_cores
  read_cores-AllStored [] r h = h
  read_cores-AllStored (core ∷ cores) r h =
      read_cores-AllStored cores _ (read_filters-AllStored (memory core.1) core.0 (core.1 + 4) r h)

  IsIn-IsStored :
      (b : BitFieldData) (items : List BitFieldData)
      → All IsStored items
      → IsIn b items
      → IsStored b
  IsIn-IsStored b [] all h = absurd h
  IsIn-IsStored b (x ∷ xs) all (inl same) = rw (sym same) all.0
  IsIn-IsStored b (x ∷ xs) all (inr later) = IsIn-IsStored b xs all.1 later

  WasRead-IsStored :
      (b : BitFieldData) (by_key : List (ℕ × List BitFieldData))
      → AllStored by_key
      → WasRead b by_key
      → IsStored b
  WasRead-IsStored b [] all h = absurd h
  WasRead-IsStored b (entry ∷ by_key) all (inl here) = IsIn-IsStored b entry.1 all.0 here
  WasRead-IsStored b (entry ∷ by_key) all (inr later) = WasRead-IsStored b by_key all.1 later

  -- Written is, for just the bit fields below the midpoint, the word of the number of atoms that is in
  -- the memory, flagged and at its address.
  pub record Marks (sort_index_of : ℕ → ℕ) (m : ℕ) (by_key : List (ℕ × List BitFieldData))
      (writes : List (ℕ × ℕ)) : Type 0 where
    pub only :
        (w : ℕ × ℕ)
        → IsIn w writes
        → (b : BitFieldData) × WasRead b by_key
          × IsStored b
          × (sort_index_of b.identity < m)
          × (w.0 ≡ b.n_atoms_address)
          × IsFlagged (memory w.0) w.1
    pub each :
        (b : BitFieldData)
        → WasRead b by_key
        → sort_index_of b.identity < m
        → (w : ℕ × ℕ) × IsIn w writes × (w.0 ≡ b.n_atoms_address) × IsFlagged (memory w.0) w.1

  IsFlagged-in_memory :
      (b : BitFieldData) (w : ℕ × ℕ) → IsStored b → IsMark b w → IsFlagged (memory w.0) w.1
  IsFlagged-in_memory b w stored (at, flagged) =
      let word : memory w.0 ≡ b.n_atoms_word = ap memory at ∙ stored.0 in rw word flagged

  pub remove_merged_bitfields-Marks :
      (cores : List (ℕ × ℕ)) (sort_index_of : ℕ → ℕ) (m : ℕ)
      → Marks sort_index_of m (read_cores memory cores nothing_read).bit_fields_by_key (
          remove_merged_bitfields_from_cores sort_index_of
            (some m)
            (read_cores memory cores nothing_read).bit_fields_by_key)
  remove_merged_bitfields-Marks cores sort_index_of m =
      let by_key = (read_cores memory cores nothing_read).bit_fields_by_key in
      let all = read_cores-AllStored cores nothing_read tt in
      record {
        only = λ w there.
            let (b, read, low, mark) = remove_sound sort_index_of m by_key w there in
            let stored = WasRead-IsStored b by_key all read in
            (b, read, stored, low, mark.0, IsFlagged-in_memory b w stored mark);
        each = λ b read low.
            let (w, there, mark) = remove_complete sort_index_of m by_key b read low in
            (w, there, mark.0, IsFlagged-in_memory b w (WasRead-IsStored b by_key all read) mark);
      }
