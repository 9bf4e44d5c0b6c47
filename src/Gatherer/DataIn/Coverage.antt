-- ===== src/Gatherer/DataIn/Coverage.antt =====
-- What the data-in stream carries: the packets of a block are its consecutive pieces of 260 bytes,
-- the last one shorter, whether they are sent in the first run or again.
use mathlib.Core.List.{flatten}
use spi_nnfront_end_common.Common.{
  ℕ, zero, suc, ◌+◌, ◌-◌, ◌*◌, ◌^◌, ◌≤◌, ◌<◌, ◌≡◌, refl, sym, ap, ◌∙◌, none, some, List, [], ◌∷◌,
  ◌++◌, map, slice-min, false, ◌==◌, ok, All, length, take, drop, min, drop-drop, drop_all,
  take-append-drop, arith,
}
use spi_nnfront_end_common.Common.Words.{Bytes, words_bytes, pack_words-ok}
use spi_nnfront_end_common.Gatherer.{
  Gatherer, Placement, SdpMessage, extra_monitor_core_data_in_speed_up, reply_not_expected, ceildiv,
  ceildiv_bounds, placement,
}
use spi_nnfront_end_common.Gatherer.DataIn.Packets.{
  command_send_data_to_location, command_send_seq_data, command_send_tell, make_data_in_message,
  packet_data_length, position_from_seq_number, make_data_in_stream_message, location_message,
  tell_message, range,
}
use spi_nnfront_end_common.Gatherer.DataIn.Stream.{
  send_location, send_tell_flag, send_packets, send_all_data_based_packets, resend_packets,
  outgoing_retransmit_missing_seq_nums,
}

-- The piece of the data that packet `n` stands for.
abbrev pub chunk : Bytes → ℕ → Bytes
chunk block n = take 260 (drop (260 * n) block)

-- The message to the gatherer's core with a payload.
abbrev pub message_to : Placement → Bytes → SdpMessage
message_to p bytes = record {
  destination_chip_x = p.x;
  destination_chip_y = p.y;
  destination_cpu = p.p;
  destination_port = extra_monitor_core_data_in_speed_up;
  flags = reply_not_expected;
  payload = bytes;
}

-- Packet `n` of the block: three header words and the piece.
abbrev pub chunk_message : Gatherer → Placement → Bytes → ℕ → SdpMessage
chunk_message g p block n =
    message_to p (words_bytes (command_send_seq_data ∷ g.transaction_id ∷ n ∷ []) ++ chunk block n)

abbrev pub tell : Gatherer → Placement → SdpMessage
tell g p = message_to p (words_bytes (command_send_tell ∷ g.transaction_id ∷ []))

abbrev pub location : Gatherer → Placement → ℕ → ℕ → SdpMessage
location g p start coord = message_to p (
    words_bytes
      (command_send_data_to_location ∷ g.transaction_id ∷ start ∷ coord ∷ (g.max_seq_num - 1) ∷ []))

-- A gatherer that `prepare` has set up for a block of fewer than 2 ^ 32 packets.
pub record IsReady (g : Gatherer) (p : Placement) (block : Bytes) : Type 0 where
  pub placed : g.known_placement ≡ some p
  pub word_id : g.transaction_id < 2 ^ 32
  pub counted : ceildiv (length block) 260 ≡ ok g.max_seq_num
  pub few : g.max_seq_num < 2 ^ 32

packet_data_length-ok :
    (block : Bytes) (start : ℕ)
    → start ≤ length block
    → packet_data_length block start ≡ ok (min 260 (length block - start))
unfolding packet_data_length
packet_data_length-ok block start h = ground arith

module _ (g : Gatherer) (p : Placement) (placed : g.known_placement ≡ some p) where
  make_data_in_message-ok : (bytes : Bytes) → make_data_in_message g bytes ≡ ok (message_to p bytes)
  unfolding make_data_in_message placement
  make_data_in_message-ok bytes = rw placed

module _ (g : Gatherer) (p : Placement) (block : Bytes) (r : IsReady g p block) where
  pub make_data_in_stream_message-at :
      (n start : ℕ)
      → start ≡ 260 * n
      → n < 2 ^ 32
      → start ≤ length block
      → make_data_in_stream_message g block n (some start)
        ≡ ok (chunk_message g p block n, min 260 (length block - start))
  unfolding make_data_in_stream_message
  make_data_in_stream_message-at n start e w fits = rw (
    packet_data_length-ok block start fits,
    pack_words-ok (command_send_seq_data ∷ g.transaction_id ∷ n ∷ []) (omega arith),
    make_data_in_message-ok g p r.placed,
    slice-min 260 start block,
    e,
  )

  pub make_data_in_stream_message-none :
      (n : ℕ)
      → n < 2 ^ 32
      → 260 * n ≤ length block
      → make_data_in_stream_message g block n none
        ≡ ok (chunk_message g p block n, min 260 (length block - 260 * n))
  unfolding make_data_in_stream_message position_from_seq_number
  make_data_in_stream_message-none n w fits = make_data_in_stream_message-at n (260 * n) refl w fits

  pub count_bounds :
      (length block ≤ g.max_seq_num * 260) × (g.max_seq_num * 260 < length block + 260)
  count_bounds = ceildiv_bounds (length block) 260 g.max_seq_num r.counted

  send_packets-eq :
      (rounds n start : ℕ)
      → n + rounds ≡ g.max_seq_num
      → (0 < rounds → start ≡ 260 * n)
      → send_packets g block rounds n start
        ≡ (map (chunk_message g p block) (range n rounds), ok tt)
  unfolding send_packets
  send_packets-eq zero n start e at = refl
  send_packets-eq (suc rounds) n start e at = rw (
    make_data_in_stream_message-at n start (at (omega arith)) (omega (arith, r.few))
        (omega (arith, count_bounds, at (omega arith))),
    send_packets-eq rounds (suc n) (start + min 260 (length block - start)) (omega arith)
        λ more. omega (arith, count_bounds, at (omega arith)),
  )

  resend_packets-eq :
      (missing : List ℕ)
      → All (λ n. n < g.max_seq_num) missing
      → resend_packets g block missing ≡ (map (chunk_message g p block) missing, ok tt)
  unfolding resend_packets
  resend_packets-eq [] h = refl
  resend_packets-eq (n ∷ missing) h = rw (
    make_data_in_stream_message-none n (omega (arith, r.few)) (omega (arith, count_bounds)),
    resend_packets-eq missing h.1,
  )

  pub tell_message-ok : tell_message g ≡ ok (tell g p)
  unfolding tell_message
  tell_message-ok = rw (
    pack_words-ok (command_send_tell ∷ g.transaction_id ∷ []) (omega arith),
    make_data_in_message-ok g p r.placed,
  )

  location_message-ok :
      (start coord : ℕ)
      → g.coord_word ≡ some coord
      → start < 2 ^ 32
      → coord < 2 ^ 32
      → 0 < length block
      → location_message g start ≡ ok (location g p start coord)
  unfolding location_message
  location_message-ok start coord known ws wc some_data =
      let some_packet : (g.max_seq_num == 0) ≡ false = ground (arith, count_bounds) in
      simp (
        some_packet,
        known,
        pack_words-ok
            (command_send_data_to_location
              ∷ g.transaction_id
              ∷ start
              ∷ coord
              ∷ (g.max_seq_num - 1)
              ∷ [])
            (omega arith),
        make_data_in_message-ok g p r.placed,
      )

  -- The pieces of the packets from number `n` to the last are the data from byte 260 * n on.
  chunks_cover :
      (rounds n : ℕ)
      → n + rounds ≡ g.max_seq_num
      → flatten (map (chunk block) (range n rounds)) ≡ drop (260 * n) block
  unfolding flatten
  chunks_cover zero n e = sym (drop_all (260 * n) block (omega (arith, count_bounds)))
  chunks_cover (suc rounds) n e = rw (chunks_cover rounds (suc n) (omega arith)) (
      ap (λ k. chunk block n ++ drop k block) {x = 260 * suc n} {y = 260 * n + 260} (omega arith)
      ∙ ap (λ l. chunk block n ++ l) (sym (drop-drop 260 (260 * n) block))
      ∙ take-append-drop 260 (drop (260 * n) block))

  -- A first transmission of a block that is not empty sends its location, then every packet from 0
  -- to the last in order, then the tell flag, and does not raise; the pieces in the packets, one
  -- after the other, are the whole block.
  pub send_all-covers :
      (start coord : ℕ)
      → g.coord_word ≡ some coord
      → start < 2 ^ 32
      → coord < 2 ^ 32
      → 0 < length block
      → (send_all_data_based_packets g block start ≡ (
        location g p start coord ∷ map (chunk_message g p block) (range 0 g.max_seq_num)
            ++ tell g p ∷ [],
        ok tt,
      ))
        × (flatten (map (chunk block) (range 0 g.max_seq_num)) ≡ block)
  unfolding send_all_data_based_packets send_location send_tell_flag
  send_all-covers start coord known ws wc some_data = (
    rw (
      location_message-ok start coord known ws wc some_data,
      send_packets-eq g.max_seq_num 0 0 (omega arith) (λ more. omega arith),
      tell_message-ok,
    ),
    chunks_cover g.max_seq_num 0 (omega arith),
  )

  -- A retransmission of numbers of the block sends for each of them, in order, the same packet as
  -- the first transmission, and then the tell flag.
  pub retransmit-same_packets :
      (missing : List ℕ)
      → All (λ n. n < g.max_seq_num) missing
      → outgoing_retransmit_missing_seq_nums g block missing
        ≡ (map (chunk_message g p block) missing ++ tell g p ∷ [], ok tt)
  unfolding outgoing_retransmit_missing_seq_nums send_tell_flag
  retransmit-same_packets missing h = rw (resend_packets-eq missing h, tell_message-ok)
