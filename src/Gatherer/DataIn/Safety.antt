-- ===== src/Gatherer/DataIn/Safety.antt =====
-- What holds of a data-in exchange whatever the board answers.
use spi_nnfront_end_common.Common.{
  ℕ, zero, suc, ◌+◌, ◌-◌, ◌*◌, ◌^◌, ◌≤◌, ◌<◌, ◌≡◌, refl, ◌⊎◌, inl, inr, Bool, ◌||◌, Option, none,
  some, List, [], ◌∷◌, map, Result, ok, err, Error, leb, ltb, Bool-cases, ◌==◌, length, All,
  All-append, min, arith, value_error, struct_error, ltb→lt, leb→le,
}
use spi_nnfront_end_common.Common.Words.{Bytes, pack_words, unpack_words}
use spi_nnfront_end_common.Common.Sends.{Send, All-bind}
use spi_nnfront_end_common.Gatherer.{
  Gatherer, Placement, SdpMessage, Event, packet, timeout, timeout_retry_limit,
}
use spi_nnfront_end_common.Gatherer.DataIn.Packets.{
  packet_data_length, make_data_in_stream_message, range, command_receive_finished,
  command_receive_missing_seq_data, position_from_seq_number,
}
use spi_nnfront_end_common.Gatherer.DataIn.Stream.{
  send_tell_flag, resend_packets, outgoing_retransmit_missing_seq_nums, send_all_data_based_packets,
}
use spi_nnfront_end_common.Gatherer.DataIn.Exchange.{
  Progress, waiting, finished, gave_up, raised, Step, proceed, accumulate, dispatch, on_packet,
  resend, on_timeout, on_event, exchange, onward,
}
use spi_nnfront_end_common.Gatherer.DataIn.Coverage.{
  chunk_message, tell, location, IsReady, make_data_in_stream_message-none, send_all-covers,
  tell_message-ok, count_bounds,
}

onward-All :
    (P : SdpMessage → Type 0) (s : Step) (next : Progress → Step)
    → All P s.0
    → ((st : Progress) → All P (next st).0)
    → All P (onward s next).0
onward-All P (sent, waiting st) next h k = All-append P sent (next st).0 h (k st)
onward-All P (sent, finished st) next h k = h
onward-All P (sent, gave_up st) next h k = h
onward-All P (sent, raised e st) next h k = h

module _ (g : Gatherer) (p : Placement) (block : Bytes) (start : ℕ) where
  -- A message of the transfer of this block: its location, a packet with the bytes that belong to
  -- its number, or the tell flag.
  pub data IsGenuine (m : SdpMessage) : Type 0 where
    is_location :
        (coord : ℕ) → g.coord_word ≡ some coord → m ≡ location g p start coord → IsGenuine m
    is_chunk : (n : ℕ) → 260 * n ≤ length block → m ≡ chunk_message g p block n → IsGenuine m
    is_tell : m ≡ tell g p → IsGenuine m

  chunks-IsGenuine :
      (ns : List ℕ)
      → All (λ n. 260 * n ≤ length block) ns
      → All IsGenuine (map (chunk_message g p block) ns)
  chunks-IsGenuine [] h = tt
  chunks-IsGenuine (n ∷ ns) h = (is_chunk n h.0 refl, chunks-IsGenuine ns h.1)

  module _ (r : IsReady g p block) where
    -- A packet for a number is made as it should be, or not at all.
    stream-cases :
        (n : ℕ)
        → ((260 * n ≤ length block)
            × (make_data_in_stream_message g block n none
                ≡ ok (chunk_message g p block n, min 260 (length block - 260 * n))))
          ⊎ ((e : Error) × (make_data_in_stream_message g block n none ≡ err e))
    stream-cases n = elim (Bool-cases (leb (260 * n) (length block))) [
      | inl fits ↦ elim (Bool-cases (ltb n (2 ^ 32))) [
        | inl word ↦ inl (
          leb→le _ _ fits,
          make_data_in_stream_message-none g p block r n (ltb→lt _ _ word) (leb→le _ _ fits),
        )
        | inr wide ↦ inr (
          struct_error,
          unfold make_data_in_stream_message position_from_seq_number packet_data_length
                pack_words in
              ground arith,
        )
      ]
      | inr beyond ↦ inr (
        value_error,
        unfold make_data_in_stream_message position_from_seq_number packet_data_length in
            ground arith,
      )
    ]

    resend_packets-IsGenuine : (ns : List ℕ) → All IsGenuine (resend_packets g block ns).0
    unfolding resend_packets
    resend_packets-IsGenuine [] = tt
    resend_packets-IsGenuine (n ∷ ns) = elim (stream-cases n) [
      | inl (fits, e) ↦ rw e (is_chunk n fits refl, resend_packets-IsGenuine ns)
      | inr (x, e) ↦ rw e tt
    ]

    retransmit-IsGenuine :
        (ns : List ℕ) → All IsGenuine (outgoing_retransmit_missing_seq_nums g block ns).0
    unfolding outgoing_retransmit_missing_seq_nums send_tell_flag
    retransmit-IsGenuine ns =
        All-bind IsGenuine (resend_packets g block ns) (λ _. send_tell_flag g)
          (resend_packets-IsGenuine ns) λ _. rw (tell_message-ok g p block r) (is_tell refl, tt)

    numbers_in_block :
        (n k : ℕ) → n + k ≤ g.max_seq_num → All (λ m. 260 * m ≤ length block) (range n k)
    numbers_in_block n zero h = tt
    numbers_in_block n (suc k) h =
        (omega (arith, count_bounds g p block r), numbers_in_block (suc n) k (omega arith))

    proceed-IsGenuine :
        (s : Send SdpMessage (Unit {0})) (before after : Progress)
        → All IsGenuine s.0
        → All IsGenuine (proceed s before after).0
    proceed-IsGenuine (sent, ok _) before after h = h
    proceed-IsGenuine (sent, err e) before after h = h

    module _ (coord : ℕ) (known : g.coord_word ≡ some coord) (ws : start < 2 ^ 32)
        (wc : coord < 2 ^ 32) (some_data : 0 < length block) where
      send-All-IsGenuine : All IsGenuine (send_all_data_based_packets g block start).0
      send-All-IsGenuine = rw ((send_all-covers g p block r start coord known ws wc some_data).0) (
        is_location coord known refl,
        All-append IsGenuine (map (chunk_message g p block) (range 0 g.max_seq_num)) (tell g p ∷ [])
            (chunks-IsGenuine (range 0 g.max_seq_num)
              (numbers_in_block 0 g.max_seq_num (omega arith)))
            (is_tell refl, tt),
      )

      accumulate-IsGenuine :
          (st : Progress) (seen : List ℕ) (found : Result (List ℕ × Bool × Bool))
          → All IsGenuine (accumulate g block start st seen found).0
      accumulate-IsGenuine st seen (err e) = tt
      accumulate-IsGenuine st seen (ok (s, seen_last, seen_all)) =
          elim (Bool-cases (seen_all || seen_last)) [
            | inl ready ↦ rw ready (proceed-IsGenuine _ _ _ (retransmit-IsGenuine s))
            | inr more ↦ rw more tt
          ]

      dispatch-IsGenuine :
          (st : Progress) (bytes : Bytes) (words : Result (List ℕ))
          → All IsGenuine (dispatch g block start st bytes words).0
      dispatch-IsGenuine st bytes (ok (cmd ∷ id ∷ [])) =
          elim (Bool-cases (g.transaction_id == id)) [
            | inr stale ↦ rw stale tt
            | inl ours ↦ elim (Bool-cases (cmd == command_receive_finished)) [
              | inl done ↦ rw (ours, done) tt
              | inr open_still ↦ elim (Bool-cases (cmd == command_receive_missing_seq_data)) [
                | inl report ↦ rw (ours, open_still, report) (accumulate-IsGenuine st _ _)
                | inr unknown ↦ rw (ours, open_still, unknown) tt
              ]
            ]
          ]
      dispatch-IsGenuine st bytes (ok []) = tt
      dispatch-IsGenuine st bytes (ok (a ∷ [])) = tt
      dispatch-IsGenuine st bytes (ok (a ∷ b ∷ c ∷ more)) = tt
      dispatch-IsGenuine st bytes (err e) = tt

      resend-IsGenuine :
          (st : Progress) (missing : Option (List ℕ))
          → All IsGenuine (resend g block start st missing).0
      resend-IsGenuine st none = proceed-IsGenuine _ _ _ send-All-IsGenuine
      resend-IsGenuine st (some s) = proceed-IsGenuine _ _ _ (retransmit-IsGenuine s)

      on_event-IsGenuine :
          (st : Progress) (e : Event) → All IsGenuine (on_event g block start st e).0
      unfolding on_event on_packet on_timeout
      on_event-IsGenuine st (packet bytes) = dispatch-IsGenuine _ bytes (unpack_words 2 bytes)
      on_event-IsGenuine st timeout =
          elim (Bool-cases (ltb timeout_retry_limit (st.time_out_count + 1))) [
            | inl over ↦ rw over tt
            | inr again ↦ rw again (resend-IsGenuine _ st.missing)
          ]

      -- Whatever packets and timeouts come, each message that the exchange sends is the location
      -- of the block, the tell flag, or a packet that pairs a number with the bytes of the block
      -- at that number: no answer makes the host write wrong data.
      pub exchange-IsGenuine :
          (st : Progress) (events : List Event) → All IsGenuine (exchange g block start st events).0
      unfolding exchange
      exchange-IsGenuine st [] = tt
      exchange-IsGenuine st (e ∷ es) =
          onward-All IsGenuine (on_event g block start st e) _ (on_event-IsGenuine st e)
            λ st'. exchange-IsGenuine st' es
