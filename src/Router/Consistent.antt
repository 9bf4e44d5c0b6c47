-- ===== src/Router/Consistent.antt =====
-- What is compressed is what is marked as merged.
use mathlib.Core.Path.{subst}
use spi_nnfront_end_common.Common.{
  sym, ℕ, ◌≤◌, ◌≡◌, refl, ap, ◌∙◌, ◌⊎◌, inl, inr, Bool, none, some, List, [], Result, ok, err,
  Result-cases, minimisation_failed_error, pacman_element_allocation_exception,
  pacman_algorithm_failed_to_generate_outputs_exception, ltb, Bool-cases, length, arith, ◌>>=◌,
}
use spi_nnfront_end_common.Router.Merge.{
  Appends, RoutingEntry, Best, Attempt, fail, exception, run_algorithm, succeeded, tried,
  binary_search_check, start_binary_search, remove_merged_bitfields_from_cores,
}
use spi_nnfront_end_common.Router.Bijection.{order_bit_fields-IsNumbering}
use spi_nnfront_end_common.Router.Table.{
  AllKnown, AreApart, all_entries, convert_bitfields_into_router_table_lem,
}
use spi_nnfront_end_common.Router.Flagged.{Marks, remove_merged_bitfields-Marks}
use spi_nnfront_end_common.Router.Marked.{length-remove_merged_bitfields}
use spi_nnfront_end_common.Router.Compress.{
  Packages, Chip, read_of, order_of, converted, compress_bitfields,
}

-- The call returns, and what it returns has the property.
abbrev pub Returns : {A : Type 0} → (A → Type 0) → Result A → Type 0
Returns P (ok a) = P a
Returns P (err e) = ⊥

-- The compressor returns a table or raises one of its two exceptions.
abbrev pub Compresses : {R : Type 0} → (List RoutingEntry → Result (List R)) → Type 0
Compresses {R} compress_table =
    (table : List RoutingEntry)
    → ((entries : List R) × (compress_table table ≡ ok entries))
      ⊎ (compress_table table ≡ err minimisation_failed_error)
      ⊎ (compress_table table ≡ err pacman_element_allocation_exception)

-- `find_max_success` only changes what its checks change, checks midpoints up to the largest, and
-- returns where the checks return.
abbrev pub Searches : {S : Type 0} → (ℕ → (ℕ → S → Result (S × Bool)) → S → Result S) → Type 1
Searches {S} find_max_success =
    (P : S → Type 0) (n : ℕ) (check : ℕ → S → Result (S × Bool)) (s : S)
    → ((m : ℕ) (t : S) → m ≤ n → P t → Returns (λ r. P r.0) (check m t))
    → P s
    → Returns P (find_max_success n check s)

module _ {R : Type 0} (packages : Packages R) (key_atom_map : List (ℕ × ℕ)) (chip : Chip)
    (router_table : List RoutingEntry) where
  -- The table for a midpoint: at first, the original one.
  abbrev pub IsTableFor : ℕ → List RoutingEntry → Type 0
  IsTableFor m table =
      ((m ≡ 0) × (table ≡ router_table))
      ⊎ (table
          ≡ all_entries key_atom_map (read_of chip).bit_fields_by_key (order_of chip).sort_index_of
              m router_table)

  -- The entries are the compressed table for the midpoint, and no more than the limit.
  pub record IsBest (best : Best R) : Type 0 where
    pub midpoint : ℕ
    pub table : List RoutingEntry
    pub is_midpoint : best.best_midpoint ≡ some midpoint
    pub in_range : midpoint ≤ (read_of chip).n_read
    pub is_table : IsTableFor midpoint table
    pub compressed : packages.compress_table table ≡ ok best.best_routing_entries
    pub few : length best.best_routing_entries ≤ chip.n_placable_processors

  -- The entries are the best ones, and the bit fields below the midpoint are marked, as many as it
  -- says.
  abbrev pub IsMerged : Best R × List (ℕ × ℕ) → Type 0
  IsMerged (best, writes) =
      (b : IsBest best) × (length writes ≡ b.midpoint)
      × Marks chip.memory (order_of chip).sort_index_of b.midpoint (read_of chip).bit_fields_by_key
          writes

  -- The outcome of the whole: what it raises if even the original table does not compress, and
  -- otherwise what it returns.
  abbrev pub Outcome : Result (Best R × List (ℕ × ℕ)) → Type 0
  Outcome r =
      ((run_algorithm packages.compress_table chip.n_placable_processors router_table
          ≡ err minimisation_failed_error)
        × (r ≡ err pacman_algorithm_failed_to_generate_outputs_exception))
      ⊎ ((run_algorithm packages.compress_table chip.n_placable_processors router_table
            ≡ err pacman_element_allocation_exception)
          × (r ≡ err pacman_element_allocation_exception))
      ⊎ Returns IsMerged r

run_algorithm_ok :
    {R : Type 0} (compress_table : List RoutingEntry → Result (List R)) (n : ℕ)
    (table : List RoutingEntry) (entries : List R)
    → run_algorithm compress_table n table ≡ ok entries
    → (compress_table table ≡ ok entries) × (length entries ≤ n)
unfolding run_algorithm
run_algorithm_ok compress_table n table entries e =
    ground (arith, Result-cases (compress_table table))

run_algorithm-cases :
    {R : Type 0} (compress_table : List RoutingEntry → Result (List R)) (n : ℕ)
    (table : List RoutingEntry)
    → Compresses compress_table
    → ((entries : List R) × (run_algorithm compress_table n table ≡ ok entries))
      ⊎ (run_algorithm compress_table n table ≡ err minimisation_failed_error)
      ⊎ (run_algorithm compress_table n table ≡ err pacman_element_allocation_exception)
unfolding run_algorithm
run_algorithm-cases compress_table n table h = elim (h table) [
  | inl (entries, e) ↦ elim (Bool-cases (ltb n (length entries))) [
    | inl long ↦ rw (e, long) (inr (inl refl))
    | inr short ↦ rw (e, short) (inl (entries, refl))
  ]
  | inr (inl e) ↦ rw e (inr (inl refl))
  | inr (inr e) ↦ rw e (inr (inr refl))
]

module _ {R : Type 0} (packages : Packages R) (key_atom_map : List (ℕ × ℕ)) (chip : Chip)
    (router_table : List RoutingEntry) (appends : Appends packages.add_entry)
    (compresses : Compresses packages.compress_table)
    (known : AllKnown key_atom_map (read_of chip).bit_fields_by_key router_table)
    (apart : AreApart key_atom_map (read_of chip).bit_fields_by_key router_table) where
  check-IsBest :
      (m : ℕ) (best : Best R)
      → m ≤ (read_of chip).n_read
      → IsBest packages key_atom_map chip router_table best
      → Returns
          (λ r. IsBest packages key_atom_map chip router_table r.0)
          (binary_search_check packages.compress_table chip.n_placable_processors
            (converted packages key_atom_map chip router_table)
            m
            best)
  unfolding binary_search_check
  check-IsBest m best in_range b =
      let table =
        all_entries key_atom_map (read_of chip).bit_fields_by_key (order_of chip).sort_index_of m
          router_table in
      let made =
        convert_bitfields_into_router_table_lem packages.add_entry appends key_atom_map
          (read_of chip).bit_fields_by_key (order_of chip).sort_index_of m router_table known
          apart in
      let kept : (a : Attempt)
          → IsBest packages key_atom_map chip router_table
              (tried packages.compress_table chip.n_placable_processors m a best) =
        λ a. record {
          midpoint = b.midpoint;
          table = b.table;
          is_midpoint = b.is_midpoint;
          in_range = b.in_range;
          is_table = b.is_table;
          compressed = b.compressed;
          few = b.few;
        } in
      elim (run_algorithm-cases packages.compress_table chip.n_placable_processors table
        compresses) [
          | inl (entries, e) ↦
              let (compressed, few) =
                run_algorithm_ok packages.compress_table chip.n_placable_processors table entries
                  e in
              rw (made, e)
                (record {
                  midpoint = m;
                  table = table;
                  is_midpoint = refl;
                  in_range = in_range;
                  is_table = inr refl;
                  compressed = compressed;
                  few = few;
                })
          | inr (inl e) ↦ rw (made, e) (kept fail)
          | inr (inr e) ↦ rw (made, e) (kept exception)
        ]

  start-IsBest :
      (entries : List R)
      → run_algorithm packages.compress_table chip.n_placable_processors router_table ≡ ok entries
      → IsBest packages key_atom_map chip router_table (
          succeeded packages.compress_table chip.n_placable_processors 0 entries
            (record { best_routing_entries = []; best_midpoint = none; compression_attempts = [] }))
  start-IsBest entries e =
      let (compressed, few) =
        run_algorithm_ok packages.compress_table chip.n_placable_processors router_table entries
          e in
      record {
        midpoint = 0;
        table = router_table;
        is_midpoint = refl;
        in_range = omega arith;
        is_table = inl (refl, refl);
        compressed = compressed;
        few = few;
      }

  found :
      (r : Result (Best R))
      → Returns (IsBest packages key_atom_map chip router_table) r
      → Returns (IsMerged packages key_atom_map chip router_table) (
          r >>= λ best. ok (
            best,
            remove_merged_bitfields_from_cores
                (order_of chip).sort_index_of
                best.best_midpoint
                (read_of chip).bit_fields_by_key,
          ))
  found (err e) h = h
  found (ok best) b =
      let count =
        length-remove_merged_bitfields chip.memory chip.base_addresses chip.core_cost_map b.midpoint
          b.in_range in
      let same =
        ap
          (λ m.
            remove_merged_bitfields_from_cores (order_of chip).sort_index_of m
              (read_of chip).bit_fields_by_key)
          b.is_midpoint in
      (
        b,
        ap length same ∙ count,
        subst
            (Marks chip.memory (order_of chip).sort_index_of b.midpoint
              (read_of chip).bit_fields_by_key)
            (sym same)
            (remove_merged_bitfields-Marks chip.memory chip.base_addresses
              (order_of chip).sort_index_of b.midpoint),
      )

  -- Where the table's `add` appends entries with new keys, the compressor returns or raises one of its
  -- two exceptions, the search only acts through its checks, the keys of the neurons are different and
  -- the bit fields as long as the known numbers of neurons: if the original table does not compress,
  -- the exception for it is raised. Otherwise a chip's compression returns entries that are the
  -- compressed table for the midpoint, no more than the limit. It writes as many words as the midpoint
  -- says: for each bit field below the midpoint, and for no other, the word of its number of atoms that
  -- is in the memory, at that word's address, with the top bit set and the others as they were.
  pub compress_bitfields-IsMerged :
      Searches packages.find_max_success
      → Outcome packages key_atom_map chip router_table
          (compress_bitfields packages key_atom_map chip router_table)
  unfolding compress_bitfields start_binary_search
  compress_bitfields-IsMerged searches =
      let numbering =
        order_bit_fields-IsNumbering chip.memory chip.base_addresses chip.core_cost_map in
      elim (run_algorithm-cases packages.compress_table chip.n_placable_processors router_table
        compresses) [
          | inr (inl e) ↦ inl (e, rw e refl)
          | inr (inr e) ↦ inr (inl (e, rw e refl))
          | inl (entries, e) ↦ inr (
              inr (
                rw e (
                  found _ (
                    searches (IsBest packages key_atom_map chip router_table)
                      (order_of chip).sort_index
                      (binary_search_check packages.compress_table chip.n_placable_processors
                        (converted packages key_atom_map chip router_table))
                      _ (λ m best le b. check-IsBest m best (omega (arith, numbering.count)) b)
                      (start-IsBest entries e)))))
        ]
