-- ===== src/Monitor/Entries.antt =====
-- The router entries of a monitor as words, written and read.
use spi_nnfront_end_common.Common.{
  ℕ, ◌+◌, ◌*◌, ◌^◌, ◌<◌, ◌≡◌, refl, ap, ◌∙◌, List, [], ◌∷◌, ◌++◌, map, append_assoc, append-nil, ok,
  length, All, ◌>>=◌, arith,
}
use spi_nnfront_end_common.Common.Words.{Bytes, AllWords, words_bytes}
use spi_nnfront_end_common.Dsg.Generator.{Generator}
use spi_nnfront_end_common.Commands.Regions.{written}
use spi_nnfront_end_common.Router.Merge.{RoutingEntry}
use spi_nnfront_end_common.Monitor.Config.{encode_route, write_entries}
use spi_nnfront_end_common.Monitor.Reader.{router_entries_from, router_entry}
use spi_nnfront_end_common.Monitor.Regions.{write_values_lem}

module _ (to_route : RoutingEntry → ℕ) (app_id : ℕ) where
  abbrev entry_words : RoutingEntry → List ℕ
  entry_words e = e.routing_entry_key ∷ e.mask ∷ encode_route to_route app_id e ∷ []

  abbrev pub entries_words : List RoutingEntry → List ℕ
  entries_words [] = []
  entries_words (e ∷ es) = entry_words e ++ entries_words es

  abbrev pub in_words : ℕ → List RoutingEntry → List ℕ
  in_words key entries = key ∷ (key + 1) ∷ (key + 2) ∷ length entries ∷ entries_words entries

  -- The words of the entry have no more than 32 bits.
  abbrev pub IsEntry : RoutingEntry → Type 0
  IsEntry e =
      (e.routing_entry_key < 2 ^ 32) × (e.mask < 2 ^ 32) × (encode_route to_route app_id e < 2 ^ 32)

  pub entries_words-AllWords :
      (es : List RoutingEntry) → All IsEntry es → AllWords (entries_words es)
  entries_words-AllWords [] h = tt
  entries_words-AllWords (e ∷ es) h = (h.0.0, (h.0.1, (h.0.2, entries_words-AllWords es h.1)))

  pub length-entries_words : (es : List RoutingEntry) → length (entries_words es) ≡ 3 * length es
  length-entries_words [] = refl
  length-entries_words (e ∷ es) = omega (arith, length-entries_words es)

  pub write_entries_lem :
      (es : List RoutingEntry) (g : Generator) (content : Bytes)
      → All IsEntry es
      → write_entries to_route app_id es (written g content)
        ≡ ok (written g (content ++ words_bytes (entries_words es)))
  unfolding write_entries
  write_entries_lem [] g content h = simp append-nil
  write_entries_lem (e ∷ es) g content h =
      let one = write_values_lem (entry_words e) g content (h.0.0, (h.0.1, (h.0.2, tt))) in
      let rest = write_entries_lem es g (content ++ words_bytes (entry_words e)) h.1 in
      ap (λ x. x >>= write_entries to_route app_id es) one
      ∙ rest
      ∙ ap (λ c. ok (written g c))
          (append_assoc content (words_bytes (entry_words e)) (words_bytes (entries_words es)))

  pub router_entries_from_lem :
      (es : List RoutingEntry)
      → router_entries_from (length es) (entries_words es)
        ≡ ok (map (router_entry to_route app_id) es)
  unfolding router_entries_from
  router_entries_from_lem [] = refl
  router_entries_from_lem (e ∷ es) = rw (router_entries_from_lem es) refl
