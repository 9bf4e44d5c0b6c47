-- ===== src/Gatherer/DataIn/Recovered.antt =====
-- A data-in transfer over a network that loses packets ends well.
use spi_nnfront_end_common.Common.{
  ℕ, suc, ◌+◌, ◌^◌, ◌<◌, ◌≡◌, refl, ap, ◌∙◌, false, Option, none, some, List, [], ◌∷◌, ok, ◌==◌,
  ==_refl, le→ltb, length, All, arith,
}
use spi_nnfront_end_common.Common.Words.{Bytes, unpack_words}
use spi_nnfront_end_common.Gatherer.{
  Gatherer, Placement, Event, packet, timeout, timeout_retry_limit,
}
use spi_nnfront_end_common.Gatherer.DataIn.Packets.{
  command_receive_finished, flag_for_missing_all_sequences,
}
use spi_nnfront_end_common.Gatherer.DataIn.Exchange.{
  Progress, on_packet, on_timeout, on_event, exchange, run_transfer, missing_so_far, fresh,
}
use spi_nnfront_end_common.Gatherer.DataIn.Coverage.{
  IsReady, send_all-covers, retransmit-same_packets,
}
use spi_nnfront_end_common.Gatherer.DataIn.Reports.{
  report, report-answered, part, part-kept, missed_all, missed_all-answered, update-All,
}
use spi_nnfront_end_common.Common.Numbers.{update}
use spi_nnfront_end_common.Gatherer.DataIn.Endings.{IsFinished}

-- What a board that works and a network that loses packets make the host hear, after `k` timeouts
-- in a row: packets of other transfers, reports of missing numbers of the block, whole or in parts, and no
-- more timeouts in a row than the limit, until the board confirms the transfer.
pub data IsFair (g : Gatherer) : ℕ → List Event → Type 0 where
  confirmed :
      (k : ℕ) (bytes : Bytes) (later : List Event)
      → unpack_words 2 bytes ≡ ok (command_receive_finished ∷ g.transaction_id ∷ [])
      → IsFair g k (packet bytes ∷ later)
  stale :
      (k cmd id : ℕ) (bytes : Bytes) (es : List Event)
      → unpack_words 2 bytes ≡ ok (cmd ∷ id ∷ [])
      → (g.transaction_id == id) ≡ false
      → IsFair g 0 es
      → IsFair g k (packet bytes ∷ es)
  reported :
      (k : ℕ) (ns : List ℕ) (es : List Event)
      → 0 < length ns
      → All (λ n. n < g.max_seq_num) ns
      → IsFair g 0 es
      → IsFair g k (packet (report g ns) ∷ es)
  reported_part :
      (k : ℕ) (ns : List ℕ) (es : List Event)
      → 0 < length ns
      → All (λ n. n < g.max_seq_num) ns
      → IsFair g 0 es
      → IsFair g k (packet (part g ns) ∷ es)
  reported_all : (k : ℕ) (es : List Event) → IsFair g 0 es → IsFair g k (packet (missed_all g) ∷ es)
  lost :
      (k : ℕ) (es : List Event)
      → k < timeout_retry_limit
      → IsFair g (suc k) es
      → IsFair g k (timeout ∷ es)

module _ (g : Gatherer) (p : Placement) (block : Bytes) (start : ℕ) (r : IsReady g p block)
    (few : g.max_seq_num < flag_for_missing_all_sequences) (coord : ℕ)
    (known : g.coord_word ≡ some coord) (ws : start < 2 ^ 32) (wc : coord < 2 ^ 32)
    (some_data : 0 < length block) where
  after_timeout :
      (st : Progress) (es : List Event) (missing : Option (List ℕ))
      → st.missing ≡ missing
      → All (λ n. n < g.max_seq_num) (missing_so_far missing)
      → st.time_out_count < timeout_retry_limit
      → ((st' : Progress)
          → All (λ n. n < g.max_seq_num) (missing_so_far st'.missing)
          → st'.time_out_count ≡ suc st.time_out_count
          → IsFinished (exchange g block start st' es).1)
      → IsFinished (exchange g block start st (timeout ∷ es)).1
  unfolding exchange on_event on_timeout
  after_timeout st es none e below again next =
      rw
        (
          le→ltb timeout_retry_limit (st.time_out_count + 1) (omega arith),
          e,
          (send_all-covers g p block r start coord known ws wc some_data).0,
        )
        (next _ tt (omega arith))
  after_timeout st es (some s) e below again next =
      rw
        (
          le→ltb timeout_retry_limit (st.time_out_count + 1) (omega arith),
          e,
          retransmit-same_packets g p block r s below,
        )
        (next _ tt (omega arith))

  after_stale :
      (st : Progress) (cmd id : ℕ) (bytes : Bytes) (es : List Event)
      → unpack_words 2 bytes ≡ ok (cmd ∷ id ∷ [])
      → (g.transaction_id == id) ≡ false
      → IsFinished (exchange g block start (record st { time_out_count = 0 }) es).1
      → IsFinished (exchange g block start st (packet bytes ∷ es)).1
  unfolding exchange on_event on_packet
  after_stale st cmd id bytes es read other next = rw (read, other) next

  exchange-IsFinished :
      (k : ℕ) (es : List Event)
      → IsFair g k es
      → (st : Progress) → st.time_out_count ≡ k
      → All (λ n. n < g.max_seq_num) (missing_so_far st.missing)
      → IsFinished (exchange g block start st es).1
  unfolding exchange on_event
  exchange-IsFinished k _ (confirmed _ bytes later read) st count below =
      unfold on_packet in rw (read, ==_refl g.transaction_id) tt
  exchange-IsFinished k _ (stale _ cmd id bytes es read other fair) st count below =
      after_stale st cmd id bytes es read other
        (exchange-IsFinished 0 es fair (record st { time_out_count = 0 }) refl below)
  exchange-IsFinished k _ (reported _ ns es some_number in_block fair) st count below =
      rw (report-answered g p block start r st ns some_number in_block below few)
        (exchange-IsFinished 0 es fair (record { missing = some []; time_out_count = 0 }) refl tt)
  exchange-IsFinished k _ (reported_part _ ns es some_number in_block fair) st count below =
      rw (part-kept g p block start r st ns some_number in_block few) (
        exchange-IsFinished 0 es fair
          (record { missing = some (update ns (missing_so_far st.missing)); time_out_count = 0 })
          refl (update-All ns g.max_seq_num (missing_so_far st.missing) in_block below))
  exchange-IsFinished k _ (reported_all _ es fair) st count below =
      rw (missed_all-answered g p block start r st below)
        (exchange-IsFinished 0 es fair (record { missing = some []; time_out_count = 0 }) refl tt)
  exchange-IsFinished k _ (lost _ es again fair) st count below =
      after_timeout st es st.missing refl below (omega arith) λ st' below' counted.
        exchange-IsFinished (suc k) es fair st' (counted ∙ ap suc count) below'

  -- A block that is not empty, of few enough packets for their numbers to be told from the flags,
  -- is sent to its end: whatever packets the network loses, repeats or brings late, as long as the
  -- board reports what is missing and is heard before the timeouts run out, the transfer ends
  -- without an exception once the board confirms it.
  pub run_transfer-IsFinished :
      (events : List Event) → IsFair g 0 events → IsFinished (run_transfer g block start events).1
  unfolding run_transfer
  run_transfer-IsFinished events fair =
      rw ((send_all-covers g p block r start coord known ws wc some_data).0, IsFinished)
        (exchange-IsFinished 0 events fair fresh refl tt)
