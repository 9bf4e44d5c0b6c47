-- ===== src/Gatherer/DataOut/Integrity.antt =====
-- A data-out transfer returns the block of memory that it asked for.
use mathlib.Core.Bool.{false≢true}
use spi_nnfront_end_common.Common.{
  ℕ, suc, ◌+◌, ◌%◌, ◌^◌, ◌<◌, ◌≡◌, refl, ap, ◌∙◌, ◌⊎◌, inl, inr, Bool, true, false, none, some,
  List, [], ◌∷◌, ok, ltb, ◌==◌, ==_refl, ◌≢◌, Bool-cases, length, if◌then◌else◌, Result-cases,
  list_ext, length-replicate, replicate, arith,
}
use spi_nnfront_end_common.Common.Words.{Bytes, pack_words, unpack_word, unpack_word_second}
use spi_nnfront_end_common.Common.Numbers.{member}
use spi_nnfront_end_common.Common.Sends.{Holds}
use spi_nnfront_end_common.Gatherer.{
  Gatherer, Placement, Event, packet, timeout, timeout_retry_limit, ceildiv, transaction_id_cap,
}
use spi_nnfront_end_common.Gatherer.DataOut.Requests.{command_start_sending, command_clear}
use spi_nnfront_end_common.Gatherer.DataOut.Output.{
  Reception, calculate_max_seq_num, start_reception,
}
use spi_nnfront_end_common.Gatherer.DataOut.Receive.{
  on_packet, on_timeout, on_event, receive_data, clear_transfer, transfer, get_data,
}
use spi_nnfront_end_common.Gatherer.DataOut.Sound.{
  forget, bare_end-IsSound, IsSound, ask_again-IsSound, reset_timeouts, process_data-IsSound,
}
use spi_nnfront_end_common.Gatherer.DataOut.Spliced.{bare_end, numbered, piece, core_packet}

-- What may come in, where packets with the numbers `arrived` have come before: a packet with this
-- transfer's id and the bytes that belong to its number, a packet that only ends the stream, with the
-- number of one that has arrived, anything without this id, or a timeout. The core ends a
-- retransmission by itself with the number after the last that it sent again. That is past the block or
-- has arrived, as it was not asked for, unless the core answers a request that it got in part.
pub data Delivers (id : ℕ) (block : Bytes) : List ℕ → List Event → Type 0 where
  nothing : (arrived : List ℕ) → Delivers id block arrived []
  with_bytes :
      (arrived : List ℕ) (n : ℕ) (ends : Bool) (es : List Event)
      → n < 2 ^ 31
      → Delivers id block (n ∷ arrived) es
      → Delivers id block arrived (packet (core_packet block id n ends) ∷ es)
  end_only :
      (arrived : List ℕ) (n : ℕ) (es : List Event)
      → n < 2 ^ 31
      → member n arrived ≡ true
      → Delivers id block (n ∷ arrived) es
      → Delivers id block arrived (packet (bare_end id n) ∷ es)
  other :
      (arrived : List ℕ) (bytes : Bytes) (es : List Event)
      → unpack_word bytes 4 ≢ ok id
      → Delivers id block arrived es
      → Delivers id block arrived (packet bytes ∷ es)
  lost :
      (arrived : List ℕ) (es : List Event)
      → Delivers id block arrived es
      → Delivers id block arrived (timeout ∷ es)

module _ (p : Placement) (id : ℕ) (block : Bytes) where
  pub on_packet-IsSound :
      (arrived : List ℕ) (n : ℕ) (ends : Bool) (st : Reception)
      → id < 2 ^ 32
      → n < 2 ^ 31
      → IsSound block arrived st
      → Holds (IsSound block (n ∷ arrived)) (on_packet p id (core_packet block id n ends) st).1
  unfolding on_packet
  on_packet-IsSound arrived n ends st wide w s =
      rw (unpack_word_second (numbered n ends) id (piece block n) wide, ==_refl id)
        (process_data-IsSound p id block arrived n ends (record st { timeoutcount = 0 }) w
          (reset_timeouts p id block arrived 0 st s))

  on_bare_end-IsSound :
      (arrived : List ℕ) (n : ℕ) (st : Reception)
      → id < 2 ^ 32
      → n < 2 ^ 31
      → member n arrived ≡ true
      → IsSound block arrived st
      → Holds (IsSound block (n ∷ arrived)) (on_packet p id (bare_end id n) st).1
  unfolding on_packet
  on_bare_end-IsSound arrived n st wide w there s =
      rw (unpack_word_second (numbered n true) id [] wide, ==_refl id)
        (bare_end-IsSound p id block arrived n (record st { timeoutcount = 0 }) w there
          (reset_timeouts p id block arrived 0 st s))

  on_other-IsSound :
      (arrived : List ℕ) (bytes : Bytes) (st : Reception)
      → unpack_word bytes 4 ≢ ok id
      → IsSound block arrived st
      → Holds (IsSound block arrived) (on_packet p id bytes st).1
  unfolding on_packet
  on_other-IsSound arrived bytes st stale s = elim (Result-cases (unpack_word bytes 4)) [
    | inr (x, e) ↦ rw e tt
    | inl (theirs, e) ↦ let differs : (id == theirs) ≡ false = ground arith in rw (e, differs) s
  ]

  on_timeout-IsSound :
      (arrived : List ℕ) (st : Reception)
      → IsSound block arrived st
      → Holds (IsSound block arrived) (on_timeout p id st).1
  unfolding on_timeout
  on_timeout-IsSound arrived st s = elim (Bool-cases (ltb timeout_retry_limit st.timeoutcount)) [
    | inl over ↦ rw over tt
    | inr again ↦ rw again (
        ask_again-IsSound p id block arrived _
          (reset_timeouts p id block arrived (st.timeoutcount + 1) st s))
  ]

  -- One round, and those that follow it.
  next_round :
      (arrived : List ℕ) (e : Event) (es : List Event) (st : Reception)
      → Holds (IsSound block arrived) (on_event p id e st).1
      → ((st' : Reception)
          → IsSound block arrived st'
          → Holds (IsSound block []) (receive_data p id es st').1)
      → IsSound block [] st
      → Holds (IsSound block []) (receive_data p id (e ∷ es) st).1
  unfolding receive_data
  next_round arrived e es st now later s = elim (Bool-cases st.complete) [
    | inl done ↦ rw (done, receive_data) s
    | inr more ↦ elim (Result-cases (on_event p id e st).1) [
      | inr (x, q) ↦ rw (more, receive_data, q) tt
      | inl (st', q) ↦ rw (more, receive_data, q) (later st' (rw q at now))
    ]
  ]

  receive_data-IsSound :
      (arrived : List ℕ) (events : List Event)
      → Delivers id block arrived events
      → id < 2 ^ 32
      → (st : Reception) → IsSound block arrived st
      → Holds (IsSound block []) (receive_data p id events st).1
  unfolding on_event
  receive_data-IsSound arrived _ (nothing _) wide st s =
      unfold receive_data in forget block arrived st s
  receive_data-IsSound arrived _ (with_bytes _ n ends es w d) wide st s =
      next_round (n ∷ arrived) _ es st (on_packet-IsSound arrived n ends st wide w s)
        (receive_data-IsSound (n ∷ arrived) es d wide) (forget block arrived st s)
  receive_data-IsSound arrived _ (end_only _ n es w there d) wide st s =
      next_round (n ∷ arrived) _ es st (on_bare_end-IsSound arrived n st wide w there s)
        (receive_data-IsSound (n ∷ arrived) es d wide) (forget block arrived st s)
  receive_data-IsSound arrived _ (other _ bytes es stale d) wide st s =
      next_round arrived _ es st (on_other-IsSound arrived bytes st stale s)
        (receive_data-IsSound arrived es d wide) (forget block arrived st s)
  receive_data-IsSound arrived _ (lost _ es d) wide st s =
      next_round arrived timeout es st (on_timeout-IsSound arrived st s)
        (receive_data-IsSound arrived es d wide) (forget block arrived st s)

  abbrev zeroed : ℕ
  zeroed = 0

  pub start_reception-IsSound :
      (g : Gatherer) → Holds (IsSound block []) (start_reception g (length block))
  unfolding start_reception calculate_max_seq_num
  start_reception-IsSound g = elim (Result-cases (ceildiv (length block) 264)) [
    | inr (x, e) ↦ rw (length-replicate (length block) zeroed, e) tt
    | inl (n, e) ↦
        rw (length-replicate (length block) zeroed, e)
          (record {
            out = replicate (length block) 0;
            held = refl;
            sized = length-replicate (length block) zeroed;
            counted = e;
            ascending = omega arith;
            agrees = λ i h. unfold member in absurd (false≢true h);
            knows = λ k h. h;
            covered = λ h. absurd (false≢true h);
          })
  ]

  -- What the loop leaves when it is over is the block.
  pub IsSound-exact :
      (st : Reception) → IsSound block [] st → st.complete ≡ true → st.gatherer.output ≡ some block
  IsSound-exact st s done =
      s.held ∙ ap some (list_ext s.out block s.sized (λ i lt. s.agrees i (s.covered done i lt)))

  transfer-exact :
      (g : Gatherer) (memory_address : ℕ) (events : List Event)
      → id < 2 ^ 32
      → Delivers id block [] events
      → Holds
          (λ r. (r ≡ none) ⊎ (r ≡ some block))
          (transfer g id p memory_address (length block) events).1
  unfolding transfer
  transfer-exact g memory_address events wide d =
      elim (Result-cases
        (pack_words (command_start_sending ∷ id ∷ memory_address ∷ length block ∷ []))) [
          | inr (x, e) ↦ rw e tt
          | inl (bytes, e) ↦ elim (Result-cases (start_reception g (length block))) [
            | inr (x, e') ↦ rw (e, e') tt
            | inl (st, e') ↦ elim (Result-cases (receive_data p id events st).1) [
              | inr (x, e'') ↦ rw (e, e', e'') tt
              | inl (st', e'') ↦
                  let sound : IsSound block [] st' = rw e'' at (
                    receive_data-IsSound [] events d wide st
                      (rw e' at (start_reception-IsSound g))) in
                  rw (e, e', e'') (ending st' sound)
            ]
          ]
        ]
    where
      cleared :
          (st : Reception)
          → IsSound block [] st
          → st.complete ≡ true
          → Holds (λ r. (r ≡ none) ⊎ (r ≡ some block)) (clear_transfer p id st).1
      cleared st s done =
          unfold clear_transfer in
          elim (Result-cases (pack_words (command_clear ∷ id ∷ []))) [
            | inr (x, e) ↦ rw e tt
            | inl (bytes, e) ↦ rw e (inr (IsSound-exact st s done))
          ]

      ending :
          (st : Reception)
          → IsSound block [] st
          → Holds
              (λ r. (r ≡ none) ⊎ (r ≡ some block))
              (if st.complete then clear_transfer p id st else ([], ok none)).1
      ending st s = elim (Bool-cases st.complete) [
        | inl done ↦ simp done (cleared st s done)
        | inr more ↦ rw more (inl refl)
      ]

suc-ne-zero : (n : ℕ) → (suc n == 0) ≡ false
suc-ne-zero n = ground arith

-- `get_data` returns exactly the block of memory, whatever order its packets come in, repeated or
-- not, with packets of other transfers and timeouts between them: what comes in is a packet with this
-- transfer's id and the bytes that belong to its number, a packet that only ends the stream, with the
-- number of a packet that has arrived, anything without this id, or a timeout.
pub get_data-exact :
    (g : Gatherer) (last_transaction_id : ℕ) (p : Placement) (memory_address : ℕ) (block : Bytes)
    (events : List Event) (bytes : Bytes)
    → Delivers ((last_transaction_id + 1) % (transaction_id_cap + 1)) block [] events
    → (get_data g last_transaction_id p memory_address (length block) events).1 ≡ ok (some bytes)
    → bytes ≡ block
unfolding get_data
get_data-exact g last p memory_address [] events bytes d h = cc
get_data-exact g last p memory_address (b ∷ block) events bytes d h =
    exact ((last + 1) % (transaction_id_cap + 1)) (omega arith) d
      (rw (suc-ne-zero (length block)) at h)
  where
    exact :
        (id : ℕ)
        → id < 2 ^ 32
        → Delivers id (b ∷ block) [] events
        → (transfer g id p memory_address (length (b ∷ block)) events).1 ≡ ok (some bytes)
        → bytes ≡ b ∷ block
    exact id wide delivered done =
        elim (rw done at (transfer-exact p id (b ∷ block) g memory_address events wide delivered)) [
          | inl e ↦ cc
          | inr e ↦ cc
        ]
