-- ===== src/Gatherer/DataIn/Reports.antt =====
-- The host's answer to a report of missing packets.
use spi_nnfront_end_common.Common.{
  ℕ, zero, suc, ◌+◌, ◌-◌, ◌/◌, ◌^◌, ◌≤◌, ◌<◌, ◌≡◌, refl, ap, sym, ◌∙◌, true, false, some, List, [],
  ◌∷◌, ◌++◌, map, ok, ◌==◌, ==_refl, append-nil, length, All, arith,
}
use spi_nnfront_end_common.Common.Words.{
  Bytes, words_bytes, unpack_words, AllWords, unpack_words-pack, length-words_bytes,
}
use spi_nnfront_end_common.Common.Numbers.{add, update}
use spi_nnfront_end_common.Gatherer.{Gatherer, Placement}
use spi_nnfront_end_common.Gatherer.DataIn.Packets.{
  range, last, but_last, add_missing, read_in_missing_seq_nums, missing_seq_nums_end_flag,
  command_receive_missing_seq_data, flag_for_missing_all_sequences,
}
use spi_nnfront_end_common.Gatherer.DataIn.Exchange.{Progress, waiting, on_packet, missing_so_far}
use spi_nnfront_end_common.Gatherer.DataIn.Coverage.{
  chunk_message, tell, IsReady, retransmit-same_packets,
}

last-append : (ns : List ℕ) (n : ℕ) → last (ns ++ n ∷ []) ≡ ok n
last-append [] n = refl
last-append (m ∷ []) n = refl
last-append (m ∷ k ∷ ns) n = last-append (k ∷ ns) n

but_last-append : (ns : List ℕ) (n : ℕ) → but_last (ns ++ n ∷ []) ≡ ns
but_last-append [] n = refl
but_last-append (m ∷ []) n = refl
but_last-append (m ∷ k ∷ ns) n = ap (λ l. m ∷ l) (but_last-append (k ∷ ns) n)

-- Every number of a list that is not empty is below a bound: then so is the last.
last-lt :
    (ns : List ℕ) (hi : ℕ)
    → 0 < length ns
    → All (λ n. n < hi) ns
    → (n : ℕ) × (last ns ≡ ok n) × (n < hi)
last-lt [] hi some_number h = absurd (omega arith)
last-lt (n ∷ []) hi some_number h = (n, refl, h.0)
last-lt (n ∷ m ∷ ns) hi some_number h = last-lt (m ∷ ns) hi (omega arith) h.1

AllWords-append :
    (ns : List ℕ) (n hi : ℕ)
    → All (λ m. m < hi) ns
    → hi ≤ 2 ^ 32
    → n < 2 ^ 32
    → AllWords (ns ++ n ∷ [])
AllWords-append [] n hi h small w = (w, tt)
AllWords-append (m ∷ ns) n hi h small w = (omega arith, AllWords-append ns n hi h.1 small w)

add-All : (n hi : ℕ) (s : List ℕ) → n < hi → All (λ m. m < hi) s → All (λ m. m < hi) (add n s)
unfolding add
add-All n hi [] w h = (w, tt)
add-All n hi (m ∷ s) w h = ground (arith, add-All n hi s w h.1)

pub update-All :
    (ns : List ℕ) (hi : ℕ) (s : List ℕ)
    → All (λ m. m < hi) ns
    → All (λ m. m < hi) s
    → All (λ m. m < hi) (update ns s)
unfolding update
update-All [] hi s hn h = h
update-All (n ∷ ns) hi s hn h = update-All ns hi (add n s) hn.1 (add-All n hi s hn.0 h)

below-AllWords : (ns : List ℕ) (hi : ℕ) → All (λ m. m < hi) ns → hi ≤ 2 ^ 32 → AllWords ns
below-AllWords [] hi h small = tt
below-AllWords (m ∷ ns) hi h small = (omega arith, below-AllWords ns hi h.1 small)

range-All : (n k hi : ℕ) → n + k ≤ hi → All (λ m. m < hi) (range n k)
range-All n zero hi h = tt
range-All n (suc k) hi h = (omega arith, range-All (suc n) k hi (omega arith))

-- The words of a report of the numbers `ns` that ends with the end flag.
abbrev pub report : Gatherer → List ℕ → Bytes
report g ns =
    words_bytes
      (command_receive_missing_seq_data ∷ g.transaction_id ∷ (ns ++ missing_seq_nums_end_flag ∷ []))

-- The words of a part of a report, and of one that says that all packets are missing.
abbrev pub part : Gatherer → List ℕ → Bytes
part g ns = words_bytes (command_receive_missing_seq_data ∷ g.transaction_id ∷ ns)

abbrev pub missed_all : Gatherer → Bytes
missed_all g = part g (flag_for_missing_all_sequences ∷ [])

module _ (g : Gatherer) (p : Placement) (block : Bytes) (start : ℕ) (r : IsReady g p block) where
  read_report :
      (ns seen : List ℕ)
      → 0 < length ns
      → All (λ n. n < g.max_seq_num) ns
      → g.max_seq_num < flag_for_missing_all_sequences
      → read_in_missing_seq_nums g (report g ns) 8 seen ≡ ok (update ns seen, true, false)
  unfolding read_in_missing_seq_nums add_missing
  read_report ns seen some_number below few =
      let words = ns ++ missing_seq_nums_end_flag ∷ [] in
      let count : (length (report g ns) - 8) / 4 ≡ length words =
        omega (arith, length-words_bytes words) in
      let read : unpack_words (length words) (words_bytes words) ≡ ok words =
        ap (unpack_words (length words)) (sym (append-nil (words_bytes words)))
        ∙ unpack_words-pack words [] (
            AllWords-append ns missing_seq_nums_end_flag g.max_seq_num below (omega arith)
              (omega arith)) in
      let (n, final, small) = last-lt ns g.max_seq_num some_number below in
      let numbered : (n == flag_for_missing_all_sequences) ≡ false = ground arith in
      rw (
        count,
        read,
        last-append ns missing_seq_nums_end_flag,
        but_last-append ns missing_seq_nums_end_flag,
        final,
        numbered,
      )

  -- A report of missing numbers of the block that ends with the end flag is answered by their
  -- packets, those of earlier unfinished reports included, and the tell flag; then the buffer is
  -- empty again and the timeouts are counted anew.
  pub report-answered :
      (st : Progress) (ns : List ℕ)
      → 0 < length ns
      → All (λ n. n < g.max_seq_num) ns
      → All (λ n. n < g.max_seq_num) (missing_so_far st.missing)
      → g.max_seq_num < flag_for_missing_all_sequences
      → on_packet g block start st (report g ns) ≡ (
        map (chunk_message g p block) (update ns (missing_so_far st.missing)) ++ tell g p ∷ [],
        waiting (record { missing = some []; time_out_count = 0 }),
      )
  unfolding on_packet
  report-answered st ns some_number below before few = rw (
    unpack_words-pack (command_receive_missing_seq_data ∷ g.transaction_id ∷ [])
        (words_bytes (ns ++ missing_seq_nums_end_flag ∷ [])) (omega arith),
    ==_refl g.transaction_id,
    read_report ns (missing_so_far st.missing) some_number below few,
    retransmit-same_packets g p block r (update ns (missing_so_far st.missing))
        (update-All ns g.max_seq_num (missing_so_far st.missing) below before),
  )

  read_part :
      (ns seen : List ℕ)
      → 0 < length ns
      → All (λ n. n < g.max_seq_num) ns
      → g.max_seq_num < flag_for_missing_all_sequences
      → read_in_missing_seq_nums g (part g ns) 8 seen ≡ ok (update ns seen, false, false)
  unfolding read_in_missing_seq_nums add_missing
  read_part ns seen some_number below few =
      let count : (length (part g ns) - 8) / 4 ≡ length ns = omega (arith, length-words_bytes ns) in
      let read : unpack_words (length ns) (words_bytes ns) ≡ ok ns =
        ap (unpack_words (length ns)) (sym (append-nil (words_bytes ns)))
        ∙ unpack_words-pack ns [] (below-AllWords ns g.max_seq_num below (omega arith)) in
      let (n, final, small) = last-lt ns g.max_seq_num some_number below in
      let numbered : (n == flag_for_missing_all_sequences) ≡ false = ground arith in
      let unended : (n == missing_seq_nums_end_flag) ≡ false = ground arith in
      rw (count, read, final, numbered, unended)

  -- The numbers of a part of a report are kept until the rest comes.
  pub part-kept :
      (st : Progress) (ns : List ℕ)
      → 0 < length ns
      → All (λ n. n < g.max_seq_num) ns
      → g.max_seq_num < flag_for_missing_all_sequences
      → on_packet g block start st (part g ns) ≡ (
        [],
        waiting
            (record { missing = some (update ns (missing_so_far st.missing)); time_out_count = 0 }),
      )
  unfolding on_packet
  part-kept st ns some_number below few = rw (
    unpack_words-pack (command_receive_missing_seq_data ∷ g.transaction_id ∷ []) (words_bytes ns)
        (omega arith),
    ==_refl g.transaction_id,
    read_part ns (missing_so_far st.missing) some_number below few,
  )

  -- If all are missing, the first transmission's packets are all sent again.
  pub missed_all-answered :
      (st : Progress)
      → All (λ n. n < g.max_seq_num) (missing_so_far st.missing)
      → on_packet g block start st (missed_all g) ≡ (
        map (chunk_message g p block) (update (range 0 g.max_seq_num) (missing_so_far st.missing))
            ++ tell g p ∷ [],
        waiting (record { missing = some []; time_out_count = 0 }),
      )
  unfolding on_packet read_in_missing_seq_nums add_missing
  missed_all-answered st before = rw (
    unpack_words-pack (command_receive_missing_seq_data ∷ g.transaction_id ∷ [])
        (words_bytes (flag_for_missing_all_sequences ∷ [])) (omega arith),
    ==_refl g.transaction_id,
    unpack_words-pack (flag_for_missing_all_sequences ∷ []) [] (omega arith),
    retransmit-same_packets g p block r (update (range 0 g.max_seq_num) (missing_so_far st.missing))
        (update-All (range 0 g.max_seq_num) g.max_seq_num (missing_so_far st.missing)
          (range-All 0 g.max_seq_num g.max_seq_num (omega arith)) before),
  )
