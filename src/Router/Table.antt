-- ===== src/Router/Table.antt =====
-- The table with merged bit fields is the one that the bit fields describe.
use spi_nnfront_end_common.Common.{
  ℕ, zero, suc, ◌+◌, ◌≤◌, ◌<◌, ◌≡◌, ◌≢◌, sym, ap, ◌∙◌, ◌⊎◌, inl, inr, Option, none, some, List, [],
  ◌∷◌, ◌++◌, append_assoc, append-nil, Result, ok, key_error, ◌>>=◌, replicate, All, All-append,
  All-imp, arith,
}
use spi_nnfront_end_common.Common.Maps.{lookup}
use spi_nnfront_end_common.Router.Bitfields.{BitFieldData}
use spi_nnfront_end_common.Router.Merge.{
  Appends, RoutingEntry, item_or, keep_all, use_bit_fields, kept_processors, add_neurons,
  convert_entry, convert_entries, convert_bitfields_into_router_table,
}
use spi_nnfront_end_common.Router.Converted.{
  or_zero, kept_bit, processors_kept, neuron_entry, neuron_entries, AllLong, HasBit,
  use_bit_fields-HasBit, keep_all-lookup, get_elem?-replicate, kept_processors_lem,
}

-- No entry of the table has a key from `lo` on and below `hi`.
abbrev pub IsFree : ℕ → ℕ → List RoutingEntry → Type 0
IsFree lo hi table = All (λ x. (x.routing_entry_key < lo) ⊎ (hi ≤ x.routing_entry_key)) table

IsFree-ne :
    (lo hi k : ℕ) (table : List RoutingEntry)
    → lo ≤ k
    → k < hi
    → IsFree lo hi table
    → All (λ x. x.routing_entry_key ≢ k) table
IsFree-ne lo hi k table p q h =
    All-imp (λ x. (x.routing_entry_key < lo) ⊎ (hi ≤ x.routing_entry_key))
      (λ x. x.routing_entry_key ≢ k)
      (λ x o e. elim o [ inl less ↦ absurd (omega arith) | inr more ↦ absurd (omega arith) ]) table
      h

IsFree-less :
    (lo hi lo' hi' : ℕ) (table : List RoutingEntry)
    → lo ≤ lo'
    → hi' ≤ hi
    → IsFree lo hi table
    → IsFree lo' hi' table
IsFree-less lo hi lo' hi' table p q h =
    All-imp (λ x. (x.routing_entry_key < lo) ⊎ (hi ≤ x.routing_entry_key))
      (λ x. (x.routing_entry_key < lo') ⊎ (hi' ≤ x.routing_entry_key))
      (λ x o. elim o [ inl less ↦ inl (omega arith) | inr more ↦ inr (omega arith) ]) table h

module _ (key_atom_map : List (ℕ × ℕ)) (by_key : List (ℕ × List BitFieldData)) where
  -- The number of neurons of an entry's key.
  abbrev pub n_neurons_of : RoutingEntry → ℕ
  n_neurons_of e = or_zero (lookup e.routing_entry_key key_atom_map)

  -- The number of neurons is known, and the bit fields are as long.
  abbrev pub IsKnown : RoutingEntry → Option (List BitFieldData) → Type 0
  IsKnown e none = Unit
  IsKnown e (some items) =
      (lookup e.routing_entry_key key_atom_map ≡ some (n_neurons_of e))
      × AllLong (n_neurons_of e) items

  abbrev pub IsApart : RoutingEntry → RoutingEntry → Type 0
  IsApart e e' =
      (e.routing_entry_key + n_neurons_of e ≤ e'.routing_entry_key)
      ⊎ (e'.routing_entry_key + n_neurons_of e' ≤ e.routing_entry_key)

  -- The neurons of the entries have different keys.
  abbrev pub AreApart : List RoutingEntry → Type 0
  AreApart [] = Unit {0}
  AreApart (e ∷ es) = All (IsApart e) es × AreApart es

  abbrev pub AllKnown : List RoutingEntry → Type 0
  AllKnown es = All (λ e. IsKnown e (lookup e.routing_entry_key by_key)) es

  module _ (sort_index_of : ℕ → ℕ) (mid_point : ℕ) where
    -- An entry without bit fields has none in the new table.
    abbrev pub entries_for : RoutingEntry → Option (List BitFieldData) → List RoutingEntry
    entries_for e none = []
    entries_for e (some items) = neuron_entries sort_index_of mid_point e items (n_neurons_of e) 0

    abbrev pub all_entries : List RoutingEntry → List RoutingEntry
    all_entries [] = []
    all_entries (e ∷ es) = entries_for e (lookup e.routing_entry_key by_key) ++ all_entries es

module _ (add_entry : RoutingEntry → List RoutingEntry → Result (List RoutingEntry))
    (appends : Appends add_entry) (key_atom_map : List (ℕ × ℕ))
    (by_key : List (ℕ × List BitFieldData)) (sort_index_of : ℕ → ℕ) (mid_point : ℕ) where
  add_neurons_lem :
      (e : RoutingEntry) (items : List BitFieldData) (core_map : List (ℕ × List ℕ))
      (n neuron total : ℕ) (table : List RoutingEntry)
      → neuron + n ≡ total
      → ((i : ℕ)
          → i < total
          → kept_processors core_map i e.processor_ids
            ≡ ok (processors_kept sort_index_of mid_point items i e.processor_ids))
      → IsFree (e.routing_entry_key + neuron) (e.routing_entry_key + total) table
      → add_neurons add_entry e core_map n neuron table
        ≡ ok (table ++ neuron_entries sort_index_of mid_point e items n neuron)
  unfolding add_neurons
  add_neurons_lem e items core_map zero neuron total table sum keeps free =
      ap ok (sym (append-nil table))
  add_neurons_lem e items core_map (suc n) neuron total table sum keeps free =
      let new = neuron_entry sort_index_of mid_point e items neuron in
      let lt : neuron < total = omega arith in
      let free' : IsFree (e.routing_entry_key + (neuron + 1)) (e.routing_entry_key + total)
          (table ++ new ∷ []) =
        All-append
          (λ x.
            (x.routing_entry_key < e.routing_entry_key + (neuron + 1))
            ⊎ (e.routing_entry_key + total ≤ x.routing_entry_key))
          table (new ∷ [])
          (IsFree-less _ _ (e.routing_entry_key + (neuron + 1)) (e.routing_entry_key + total) table
            (omega arith) (omega arith) free)
          (inl (omega arith), tt) in
      let added =
        appends new table
          (IsFree-ne _ _ (e.routing_entry_key + neuron) table (omega arith) (omega arith) free) in
      rw (keeps neuron lt, added)
        (add_neurons_lem e items core_map n (neuron + 1) total (table ++ new ∷ []) (omega arith)
            keeps free'
          ∙ ap ok (
              append_assoc table (new ∷ [])
                (neuron_entries sort_index_of mid_point e items n (neuron + 1))))

  -- The entries to come are apart from the table.
  abbrev AllFree : List RoutingEntry → List RoutingEntry → Type 0
  AllFree es table =
      All
        (λ e.
          IsFree e.routing_entry_key (e.routing_entry_key + n_neurons_of key_atom_map by_key e)
            table)
        es

  convert_entry_lem :
      (e : RoutingEntry) (o : Option (List BitFieldData)) (table : List RoutingEntry)
      → IsKnown key_atom_map by_key e o
      → IsFree e.routing_entry_key (e.routing_entry_key + n_neurons_of key_atom_map by_key e) table
      → convert_entry add_entry key_atom_map by_key sort_index_of mid_point e o table
        ≡ ok (table ++ entries_for key_atom_map by_key sort_index_of mid_point e o)
  convert_entry_lem e none table k free = ap ok (sym (append-nil table))
  convert_entry_lem e (some items) table (known, long) free =
      let n = n_neurons_of key_atom_map by_key e in
      let mask = replicate n 1 in
      let core_map = use_bit_fields sort_index_of mid_point items (keep_all mask e.processor_ids) in
      let keeps : (i : ℕ)
          → i < n
          → kept_processors core_map i e.processor_ids
            ≡ ok (processors_kept sort_index_of mid_point items i e.processor_ids) =
        λ i lt. kept_processors_lem sort_index_of mid_point items core_map i e.processor_ids (
          All-imp (λ p. lookup p (keep_all mask e.processor_ids) ≡ some mask)
            (λ p. HasBit core_map p i (kept_bit sort_index_of mid_point items p i 1))
            (λ p at.
              use_bit_fields-HasBit sort_index_of mid_point items (keep_all mask e.processor_ids) n
                p i 1 lt long (mask, at, get_elem?-replicate n i lt))
            e.processor_ids (keep_all-lookup mask e.processor_ids)) in
      ap
        (λ o. item_or key_error o >>= λ n_neurons.
          add_neurons add_entry e
            (use_bit_fields sort_index_of mid_point items
              (keep_all (replicate n_neurons 1) e.processor_ids))
            n_neurons 0 table)
        known
      ∙ add_neurons_lem e items core_map n 0 n table (omega arith) keeps (
          IsFree-less _ _ (e.routing_entry_key + 0) (e.routing_entry_key + n) table (omega arith)
            (omega arith) free)

  -- New entries of one original entry leave the others free.
  neuron_entries-IsFree :
      (lo hi : ℕ) (e : RoutingEntry) (items : List BitFieldData) (n neuron : ℕ)
      → (e.routing_entry_key + (neuron + n) ≤ lo) ⊎ (hi ≤ e.routing_entry_key)
      → IsFree lo hi (neuron_entries sort_index_of mid_point e items n neuron)
  neuron_entries-IsFree lo hi e items zero neuron h = tt
  neuron_entries-IsFree lo hi e items (suc n) neuron h = (
    elim h [ inl less ↦ inl (omega arith) | inr more ↦ inr (omega arith) ],
    neuron_entries-IsFree lo hi e items n (neuron + 1)
        (elim h [ inl less ↦ inl (omega arith) | inr more ↦ inr (omega arith) ]),
  )

  entries_for-IsFree :
      (lo hi : ℕ) (e : RoutingEntry) (o : Option (List BitFieldData))
      → (e.routing_entry_key + n_neurons_of key_atom_map by_key e ≤ lo) ⊎ (hi ≤ e.routing_entry_key)
      → IsFree lo hi (entries_for key_atom_map by_key sort_index_of mid_point e o)
  entries_for-IsFree lo hi e none h = tt
  entries_for-IsFree lo hi e (some items) h =
      neuron_entries-IsFree lo hi e items (n_neurons_of key_atom_map by_key e) 0
        (elim h [ inl less ↦ inl (omega arith) | inr more ↦ inr more ])

  AllFree-append :
      (e : RoutingEntry) (o : Option (List BitFieldData)) (es table : List RoutingEntry)
      → All (IsApart key_atom_map by_key e) es
      → AllFree es table
      → AllFree es (table ++ entries_for key_atom_map by_key sort_index_of mid_point e o)
  AllFree-append e o [] table apart free = tt
  AllFree-append e o (e' ∷ es) table apart free =
      let hi = e'.routing_entry_key + n_neurons_of key_atom_map by_key e' in
      (
        All-append (λ x. (x.routing_entry_key < e'.routing_entry_key) ⊎ (hi ≤ x.routing_entry_key))
            table _ free.0 (entries_for-IsFree e'.routing_entry_key hi e o apart.0),
        AllFree-append e o es table apart.1 free.1,
      )

  convert_entries_lem :
      (es table : List RoutingEntry)
      → AllKnown key_atom_map by_key es
      → AreApart key_atom_map by_key es
      → AllFree es table
      → convert_entries add_entry key_atom_map by_key sort_index_of mid_point es table
        ≡ ok (table ++ all_entries key_atom_map by_key sort_index_of mid_point es)
  unfolding convert_entries
  convert_entries_lem [] table known apart free = ap ok (sym (append-nil table))
  convert_entries_lem (e ∷ es) table known apart free =
      let o = lookup e.routing_entry_key by_key in
      rw (convert_entry_lem e o table known.0 free.0) (
        convert_entries_lem es
          (table ++ entries_for key_atom_map by_key sort_index_of mid_point e o) known.1 apart.1
          (AllFree-append e o es table apart.0 free.1)
        ∙ ap ok (
            append_assoc table (entries_for key_atom_map by_key sort_index_of mid_point e o)
              (all_entries key_atom_map by_key sort_index_of mid_point es)))

  AllFree-nil : (es : List RoutingEntry) → AllFree es []
  AllFree-nil [] = tt
  AllFree-nil (e ∷ es) = (tt, AllFree-nil es)

  -- Where the table's `add` appends entries with new keys, the keys of the neurons are different, and
  -- the bit fields are as long as the numbers of neurons, which are known: the new table is made
  -- without an exception. It has one entry for each neuron of each key that has bit fields, with the
  -- links of the original entry, and the processors whose last merged bit field for the key, where
  -- there is one, has the neuron's bit; for other keys it has none.
  pub convert_bitfields_into_router_table_lem :
      (es : List RoutingEntry)
      → AllKnown key_atom_map by_key es
      → AreApart key_atom_map by_key es
      → convert_bitfields_into_router_table add_entry key_atom_map by_key sort_index_of es mid_point
        ≡ ok (all_entries key_atom_map by_key sort_index_of mid_point es)
  unfolding convert_bitfields_into_router_table
  convert_bitfields_into_router_table_lem es known apart =
      convert_entries_lem es [] known apart (AllFree-nil es)
