-- ===== src/Gatherer/DataOut/Accepted.antt =====
-- Each packet of a block is taken in without a message, and the last one completes the transfer.
use spi_nnfront_end_common.Common.{
  ℕ, zero, suc, ◌+◌, ◌/◌, ◌^◌, ◌≤◌, ◌<◌, ◌≡◌, refl, ◌∙◌, ◌⊎◌, inl, inr, Bool, true, false, some,
  List, [], ◌∷◌, ◌++◌, ok, ◌==◌, ==_refl, Bool-cases, length, All, le→ltb, arith,
}
use spi_nnfront_end_common.Common.Words.{Bytes, unpack_word_second}
use spi_nnfront_end_common.Common.Numbers.{add, member, member-add, IsAscending-length}
use spi_nnfront_end_common.Gatherer.{Placement, Event, packet, ceildiv_bounds}
use spi_nnfront_end_common.Gatherer.DataOut.Requests.{
  missing_from, missing_seq_nums, request_missing, determine_and_retransmit_missing_seq_nums,
}
use spi_nnfront_end_common.Gatherer.DataOut.Output.{
  Reception, calculate_max_seq_num, check, write_payload,
}
use spi_nnfront_end_common.Gatherer.DataOut.Receive.{
  ask_again, at_end, process_data, on_packet, on_event, receive_data,
}
use spi_nnfront_end_common.Gatherer.DataOut.Pieces.{write_payload-accepted}
use spi_nnfront_end_common.Gatherer.DataOut.Spliced.{numbered, piece, core_packet}
use spi_nnfront_end_common.Gatherer.DataOut.Sound.{
  IsSound, first_word, number_parts, forget, reset_timeouts, take_packet, at_end-IsSound,
}

module _ (id : ℕ) (block : Bytes) (later : List Event) where
  -- The packets numbered `ns` without the flag, the flagged packet with what is left of the block
  -- after its full packets, which is nothing where the length is a multiple of 264, and whatever comes
  -- after it.
  abbrev pub stream : List ℕ → List Event
  stream [] = packet (core_packet block id (length block / 264) true) ∷ later
  stream (n ∷ ns) = packet (core_packet block id n false) ∷ stream ns

missing_from-full :
    (n rounds : ℕ) (seq_nums : List ℕ)
    → ((k : ℕ) → n ≤ k → k < n + rounds → member k seq_nums ≡ true)
    → missing_from n rounds seq_nums ≡ []
unfolding missing_from
missing_from-full n zero seq_nums h = refl
missing_from-full n (suc rounds) seq_nums h = rw (
  h n (omega arith) (omega arith),
  missing_from-full (suc n) rounds seq_nums (λ k p q. h k (omega arith) (omega arith)),
)

module _ (p : Placement) (id : ℕ) (block : Bytes) where
  check-total :
      (st : Reception)
      → IsSound block [] st
      → (b : Bool) × (check st.gatherer.output st.seq_nums ≡ ok b)
  unfolding check calculate_max_seq_num
  check-total st s = (
    length st.seq_nums == st.gatherer.max_seq_num + 1,
    rw (
      s.held,
      s.sized,
      s.counted,
      le→ltb (st.gatherer.max_seq_num + 1) (length st.seq_nums) (
          omega
            (arith, IsAscending-length 0 (st.gatherer.max_seq_num + 1) st.seq_nums s.ascending)),
    ),
  )

  -- Nothing is asked for where nothing is missing.
  ask_again-full :
      (st : Reception)
      → ((k : ℕ) → k < st.gatherer.max_seq_num → member k st.seq_nums ≡ true)
      → ask_again p id st
        ≡ ([], ok (record st { lost_seq_nums = st.lost_seq_nums ++ 0 ∷ []; complete = true }))
  unfolding ask_again determine_and_retransmit_missing_seq_nums missing_seq_nums request_missing
  ask_again-full st all_there = rw (
      missing_from-full 0 st.gatherer.max_seq_num st.seq_nums (λ k _ lt. all_there k (omega arith)))

  -- Either check finds that all is there.
  at_end-full :
      (st : Reception)
      → IsSound block [] st
      → ((k : ℕ) → k < st.gatherer.max_seq_num → member k st.seq_nums ≡ true)
      → (after : Reception) × (at_end p id true st ≡ ([], ok after)) × (after.complete ≡ true)
  unfolding at_end
  at_end-full st s all_there =
      let (b, checked) = check-total st s in
      elim (Bool-cases b) [
        | inl yes_all ↦ (record st { complete = true }, rw (checked, yes_all), refl)
        | inr not_end ↦ (
          record st { lost_seq_nums = st.lost_seq_nums ++ 0 ∷ []; complete = true },
          rw (checked, not_end, ask_again-full st all_there),
          refl,
        )
      ]

  -- The state with a packet taken in, `out` as the new output.
  abbrev with_packet : ℕ → Bytes → Reception → Reception
  with_packet n out st = record st {
    gatherer = record st.gatherer { output = some out };
    seq_nums = add n st.seq_nums;
    timeoutcount = 0;
  }

  module _ (wide : id < 2 ^ 32) (fits : length block < 2 ^ 32) where
    written_packet :
        (n : ℕ) (ends : Bool) (st : Reception) (out : Bytes)
        → n ≤ length block / 264
        → n ≤ st.gatherer.max_seq_num
        → write_payload st.gatherer (core_packet block id n ends) n ends
          ≡ ok (record st.gatherer { output = some out })
        → on_packet p id (core_packet block id n ends) st ≡ at_end p id ends (with_packet n out st)
    unfolding on_packet process_data
    written_packet n ends st out below known stored =
        let (number, flag) = number_parts n ends (omega arith) in
        rw
          (
            unpack_word_second (numbered n ends) id (piece block n) wide,
            ==_refl id,
            (first_word id block n ends (omega arith)).0,
            number,
            flag,
            le→ltb st.gatherer.max_seq_num n known,
            stored,
          )
          refl

    packet-taken :
        (n : ℕ) (ends : Bool) (st : Reception)
        → IsSound block [] st
        → n ≤ length block / 264
        → (out : Bytes) × (on_packet p id (core_packet block id n ends) st
            ≡ at_end p id ends (with_packet n out st))
          × IsSound block [] (with_packet n out st)
    packet-taken n ends st s below =
        let known : n ≤ st.gatherer.max_seq_num =
          omega (arith, ceildiv_bounds (length block) 264 st.gatherer.max_seq_num s.counted) in
        let (out, stored, written) =
          write_payload-accepted st.gatherer block s.out id n ends s.held s.sized (omega arith) in
        (
          out,
          written_packet n ends st out below known stored,
          forget block (n ∷ []) _ (
              reset_timeouts p id block (n ∷ []) 0 _
                (take_packet p id block [] n st out s known written)),
        )

    -- The last packet of the stream completes the transfer.
    last_packet-taken :
        (st : Reception)
        → IsSound block [] st
        → ((k : ℕ) → k < length block / 264 → member k st.seq_nums ≡ true)
        → (after : Reception) × (on_packet p id (core_packet block id (length block / 264) true) st
            ≡ ([], ok after))
          × (after.complete ≡ true)
          × IsSound block [] after
    last_packet-taken st s all_there =
        let (out, taken, sound) = packet-taken (length block / 264) true st s (omega arith) in
        let (after, ended, done) =
          at_end-full (with_packet (length block / 264) out st) sound λ k lt. every k lt in
        (
          after,
          taken ∙ ended,
          done,
          rw ended at
              (at_end-IsSound p id block [] true (with_packet (length block / 264) out st) sound),
        )
      where
        every :
            (k : ℕ)
            → k < st.gatherer.max_seq_num
            → member k (add (length block / 264) st.seq_nums) ≡ true
        every k lt =
            let bounds = ceildiv_bounds (length block) 264 st.gatherer.max_seq_num s.counted in
            elim (Bool-cases (k == length block / 264)) [
              | inl same ↦ ground (arith, member-add k (length block / 264) st.seq_nums)
              | inr other ↦
                  let there = all_there k (ground arith) in
                  ground (arith, member-add k (length block / 264) st.seq_nums)
            ]

    receive_data-done :
        (events : List Event) (st : Reception)
        → st.complete ≡ true
        → receive_data p id events st ≡ ([], ok st)
    unfolding receive_data
    receive_data-done [] st done = refl
    receive_data-done (e ∷ es) st done = simp (done, receive_data)

    still_there :
        (st : Reception) (k : ℕ)
        → (member k [] ≡ true) ⊎ (member k st.seq_nums ≡ true)
        → member k st.seq_nums ≡ true
    unfolding member
    still_there st k h = ground arith

    one_more :
        (n : ℕ) (ns : List ℕ) (st : Reception) (k : ℕ)
        → (member k (n ∷ ns) ≡ true) ⊎ (member k st.seq_nums ≡ true)
        → (member k ns ≡ true) ⊎ (member k (add n st.seq_nums) ≡ true)
    unfolding member
    one_more n ns st k h = ground (arith, member-add k n st.seq_nums)

    receive_data-step :
        (bytes : Bytes) (events : List Event) (st after : Reception)
        → st.complete ≡ false
        → on_packet p id bytes st ≡ ([], ok after)
        → receive_data p id (packet bytes ∷ events) st ≡ receive_data p id events after
    unfolding receive_data on_event
    receive_data-step bytes events st after more taken = rw (more, receive_data, taken) refl

    pub receive_data_complete :
        (later : List Event) (ns : List ℕ) (st : Reception)
        → IsSound block [] st
        → st.complete ≡ false
        → All (λ n. n < length block / 264) ns
        → ((k : ℕ) → k < length block / 264 → (member k ns ≡ true) ⊎ (member k st.seq_nums ≡ true))
        → (after : Reception) × (receive_data p id (stream id block later ns) st ≡ ([], ok after))
          × (after.complete ≡ true)
          × IsSound block [] after
    unfolding at_end
    receive_data_complete later [] st s more below all_there =
        let (after, taken, done, sound) =
          last_packet-taken st s (λ k lt. still_there st k (all_there k lt)) in
        (
          after,
          receive_data-step _ later st after more taken ∙ receive_data-done later after done,
          done,
          sound,
        )
    receive_data_complete later (n ∷ ns) st s more below all_there =
        let (out, taken, sound) = packet-taken n false st s (omega arith) in
        let (after, received, done, sound') =
          receive_data_complete later ns (with_packet n out st) sound more below.1
            (λ k lt. one_more n ns st k (all_there k lt)) in
        (
          after,
          receive_data-step _ (stream id block later ns) st (with_packet n out st) more taken
              ∙ received,
          done,
          sound',
        )
