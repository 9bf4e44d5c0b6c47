-- ===== src/Gatherer/DataOut/Sound.antt =====
-- The invariant of a data-out transfer, and that each packet of the block keeps it.
use mathlib.Core.Bool.{false≢true}
use spi_nnfront_end_common.Common.{
  ℕ, zero, suc, ◌+◌, ◌/◌, ◌^◌, ◌≤◌, ◌<◌, ◌≡◌, refl, sym, ap, ◌∙◌, inl, inr, Bool, true, false, some,
  List, [], ◌∷◌, ◌++◌, ok, ltb, ◌==◌, ==_iff, Bool-cases, length, get_elem?, if◌then◌else◌, ltb→le,
  Result-cases, arith,
}
use spi_nnfront_end_common.Common.Words.{Bytes, words_bytes, unpack_word, unpack_word-first}
use spi_nnfront_end_common.Common.Numbers.{
  sets, add, member, IsAscending, add-IsAscending, IsAscending-full,
}
use spi_nnfront_end_common.Common.Sends.{Holds}
use spi_nnfront_end_common.Gatherer.{Gatherer, Placement, ceildiv, ceildiv_bounds}
use spi_nnfront_end_common.Gatherer.DataOut.Requests.{
  missing_from, missing_seq_nums, request_missing, n_packets_for, send_requests,
  determine_and_retransmit_missing_seq_nums,
}
use spi_nnfront_end_common.Gatherer.DataOut.Output.{
  Reception, calculate_max_seq_num, check, write_payload, seq_num_of, is_end_of_stream,
}
use spi_nnfront_end_common.Gatherer.DataOut.Receive.{ask_again, at_end, process_data}
use spi_nnfront_end_common.Gatherer.DataOut.Pieces.{Written, ok_eq, write_payload-Written}
use spi_nnfront_end_common.Gatherer.DataOut.Spliced.{
  bare_end, in_packet, numbered, piece, core_packet,
}

-- The output has the block's length, and its bytes wherever a packet was counted, as those that
-- `arrived` were; once the loop is over, a packet has arrived for every byte.
pub record IsSound (block : Bytes) (arrived : List ℕ) (st : Reception) : Type 0 where
  pub out : Bytes
  pub held : st.gatherer.output ≡ some out
  pub sized : length out ≡ length block
  pub counted : ceildiv (length block) 264 ≡ ok st.gatherer.max_seq_num
  pub ascending : IsAscending 0 st.seq_nums (st.gatherer.max_seq_num + 1)
  pub agrees : (i : ℕ) → member (i / 264) st.seq_nums ≡ true → get_elem? out i ≡ get_elem? block i
  pub knows : (k : ℕ) → member k arrived ≡ true → member k st.seq_nums ≡ true
  pub covered :
      st.complete ≡ true → (i : ℕ) → i < length block → member (i / 264) st.seq_nums ≡ true

-- No number is missing: each is in the set.
missing_from-nil :
    (n rounds : ℕ) (seq_nums : List ℕ)
    → missing_from n rounds seq_nums ≡ []
    → (k : ℕ) → n ≤ k
    → k < n + rounds
    → member k seq_nums ≡ true
unfolding missing_from
missing_from-nil n zero seq_nums h k p q = absurd (omega arith)
missing_from-nil n (suc rounds) seq_nums h k p q = elim (Bool-cases (member n seq_nums)) [
  | inl there ↦ elim (Bool-cases (n == k)) [
    | inl same ↦ rw (sym ((==_iff n k).0 same)) there
    | inr other ↦
        missing_from-nil (suc n) rounds seq_nums (ground arith) k (ground arith) (omega arith)
  ]
  | inr gone ↦ ground arith
]

module _ (p : Placement) (id : ℕ) where
  request_missing_complete :
      (missing : List ℕ) → Holds (λ b. b ≡ true → missing ≡ []) (request_missing p id missing).1
  unfolding request_missing
  request_missing_complete [] = λ _. refl
  request_missing_complete (n ∷ ns) = elim (Result-cases (n_packets_for (length (n ∷ ns)))) [
    | inr (x, e) ↦ rw e tt
    | inl (count, e) ↦ elim (Result-cases (send_requests p id (n ∷ ns) count count true 0).1) [
      | inr (x, e') ↦ rw (e, e') tt
      | inl (u, e') ↦ rw (e, e') (λ h. absurd (false≢true h))
    ]
  ]

  module _ (block : Bytes) (arrived : List ℕ) where
    pub ask_again-IsSound :
        (st : Reception)
        → IsSound block arrived st
        → Holds (IsSound block arrived) (ask_again p id st).1
    unfolding ask_again determine_and_retransmit_missing_seq_nums
    ask_again-IsSound st s =
        elim (Result-cases (request_missing p id (missing_seq_nums st.gatherer st.seq_nums)).1) [
          | inr (x, e) ↦ rw e tt
          | inl (complete, e) ↦
              let none_missing : complete ≡ true → missing_seq_nums st.gatherer st.seq_nums ≡ [] =
                (rw e at (request_missing_complete (missing_seq_nums st.gatherer st.seq_nums))) in
              rw e (record {
                out = s.out;
                held = s.held;
                sized = s.sized;
                counted = s.counted;
                ascending = s.ascending;
                agrees = s.agrees;
                knows = s.knows;
                covered = λ h i lt.
                    unfold missing_seq_nums in
                    missing_from-nil 0 st.gatherer.max_seq_num st.seq_nums (none_missing h)
                      (i / 264) (omega arith)
                      (omega (
                        arith,
                        ceildiv_bounds (length block) 264 st.gatherer.max_seq_num s.counted,
                      ));
              })
        ]

    -- `__check` passes only if every number up to the last has been received.
    check-covers :
        (st : Reception)
        → IsSound block arrived st
        → check st.gatherer.output st.seq_nums ≡ ok true
        → (k : ℕ) → k ≤ st.gatherer.max_seq_num
        → member k st.seq_nums ≡ true
    unfolding check
    check-covers st s h k le =
        let needed : calculate_max_seq_num st.gatherer.output ≡ ok st.gatherer.max_seq_num =
          unfold calculate_max_seq_num in rw (s.held, s.sized) s.counted in
        let all_there : length st.seq_nums ≡ st.gatherer.max_seq_num + 1 = ground arith in
        IsAscending-full k 0 (st.gatherer.max_seq_num + 1) st.seq_nums s.ascending
          (omega (arith, all_there)) (omega arith) (omega arith)

    mark_complete :
        (st : Reception)
        → IsSound block arrived st
        → check st.gatherer.output st.seq_nums ≡ ok true
        → IsSound block arrived (record st { complete = true })
    mark_complete st s h = record {
      out = s.out;
      held = s.held;
      sized = s.sized;
      counted = s.counted;
      ascending = s.ascending;
      agrees = s.agrees;
      knows = s.knows;
      covered = λ _ i lt.
          check-covers st s h (i / 264)
            (omega (arith, ceildiv_bounds (length block) 264 st.gatherer.max_seq_num s.counted));
    }

    pub at_end-IsSound :
        (ends : Bool) (st : Reception)
        → IsSound block arrived st
        → Holds (IsSound block arrived) (at_end p id ends st).1
    unfolding at_end
    at_end-IsSound false st s = s
    at_end-IsSound true st s = elim (Result-cases (check st.gatherer.output st.seq_nums)) [
      | inr (x, e) ↦ rw e tt
      | inl (b, e) ↦ elim (Bool-cases b) [
        | inl all_there ↦ rw (e, all_there) (mark_complete st s (e ∙ ap ok all_there))
        | inr more ↦ rw (e, more) (ask_again-IsSound st s)
      ]
    ]

    pub reset_timeouts :
        (n : ℕ) (st : Reception)
        → IsSound block arrived st
        → IsSound block arrived (record st { timeoutcount = n })
    reset_timeouts n st s = record {
      out = s.out;
      held = s.held;
      sized = s.sized;
      counted = s.counted;
      ascending = s.ascending;
      agrees = s.agrees;
      knows = s.knows;
      covered = s.covered;
    }

    -- The state after a packet of the block is written.
    pub take_packet :
        (n : ℕ) (st : Reception) (out' : Bytes) (s : IsSound block arrived st)
        → n ≤ st.gatherer.max_seq_num
        → Written block s.out out' n
        → IsSound block (n ∷ arrived) (record st {
          gatherer = record st.gatherer { output = some out' };
          seq_nums = add n st.seq_nums;
        })
    take_packet n st out' s le (same_length, placed) = record {
      out = out';
      held = refl;
      sized = same_length ∙ s.sized;
      counted = s.counted;
      ascending =
          add-IsAscending n 0 (st.gatherer.max_seq_num + 1) st.seq_nums (omega arith) (omega arith)
            s.ascending;
      agrees = λ i h. placed i ∙ agrees_at i h;
      knows = knows_more;
      covered = λ h i lt. member-add_old (i / 264) (s.covered h i lt);
    }
      where
        member-add_old : (k : ℕ) → member k st.seq_nums ≡ true → member k (add n st.seq_nums) ≡ true
        member-add_old k h = grind sets

        knows_more : (k : ℕ) → member k (n ∷ arrived) ≡ true → member k (add n st.seq_nums) ≡ true
        knows_more k h = elim (Bool-cases (member k arrived)) [
          | inl there ↦ member-add_old k (s.knows k there)
          | inr not_there ↦ let is_n : (k == n) ≡ true = unfold member in ground arith in grind sets
        ]

        agrees_at :
            (i : ℕ)
            → member (i / 264) (add n st.seq_nums) ≡ true
            → (if i / 264 == n then get_elem? block i else get_elem? s.out i) ≡ get_elem? block i
        agrees_at i h = elim (Bool-cases (i / 264 == n)) [
          | inl here ↦ rw here
          | inr other ↦ rw other (s.agrees i (grind sets))
        ]

pub number_parts :
    (n : ℕ) (ends : Bool)
    → n < 2 ^ 31
    → (seq_num_of (numbered n ends) ≡ n) × (is_end_of_stream (numbered n ends) ≡ ends)
number_parts n true w = (omega arith, ground arith)
number_parts n false w = (omega arith, ground arith)

pub first_word :
    (id : ℕ) (block : Bytes) (n : ℕ) (ends : Bool)
    → n < 2 ^ 31
    → (unpack_word (core_packet block id n ends) 0 ≡ ok (numbered n ends))
      × (seq_num_of (numbered n ends) ≡ n)
      × (is_end_of_stream (numbered n ends) ≡ ends)
first_word id block n true w = (
  unpack_word-first (2 ^ 31 + n) (words_bytes (id ∷ []) ++ piece block n) (omega arith),
  (number_parts n true w).0,
  (number_parts n true w).1,
)
first_word id block n false w = (
  unpack_word-first n (words_bytes (id ∷ []) ++ piece block n) (omega arith),
  (number_parts n false w).0,
  (number_parts n false w).1,
)

pub forget :
    (block : Bytes) (arrived : List ℕ) (st : Reception)
    → IsSound block arrived st
    → IsSound block [] st
forget block arrived st s = record {
  out = s.out;
  held = s.held;
  sized = s.sized;
  counted = s.counted;
  ascending = s.ascending;
  agrees = s.agrees;
  knows = λ k h. unfold member in absurd (false≢true h);
  covered = s.covered;
}

module _ (p : Placement) (id : ℕ) (block : Bytes) (arrived : List ℕ) where
  -- A packet whose bytes are put where they belong, or that is refused, keeps the output sound.
  process-IsSound :
      (bytes : Bytes) (n : ℕ) (ends : Bool) (st : Reception) (s : IsSound block arrived st)
      → n < 2 ^ 31
      → unpack_word bytes 0 ≡ ok (numbered n ends)
      → ((g : Gatherer)
          → write_payload st.gatherer bytes n ends ≡ ok g
          → (out' : Bytes) × (g ≡ record st.gatherer { output = some out' })
            × Written block s.out out' n)
      → Holds (IsSound block (n ∷ arrived)) (process_data p id bytes st).1
  unfolding process_data
  process-IsSound bytes n ends st s w word writes =
      let (number, flag) = number_parts n ends w in
      elim (Bool-cases (ltb st.gatherer.max_seq_num n)) [
        | inl insane ↦ rw (word, number, insane) tt
        | inr known ↦ elim (Result-cases (write_payload st.gatherer bytes n ends)) [
          | inr (x, e) ↦ rw (word, number, flag, known, e) tt
          | inl (g, e) ↦
              let (out', stored, written) = writes g e in
              rw (word, number, flag, known, e, stored)
                (at_end-IsSound p id block (n ∷ arrived) ends _ (
                  take_packet p id block arrived n st out' s
                    (ltb→le st.gatherer.max_seq_num n known) written))
        ]
      ]

  -- A packet of the block keeps the output sound, or raises.
  pub process_data-IsSound :
      (n : ℕ) (ends : Bool) (st : Reception)
      → n < 2 ^ 31
      → IsSound block arrived st
      → Holds (IsSound block (n ∷ arrived)) (process_data p id (core_packet block id n ends) st).1
  process_data-IsSound n ends st w s =
      process-IsSound (core_packet block id n ends) n ends st s w (first_word id block n ends w).0
        λ g e. write_payload-Written st.gatherer g block s.out id n ends s.held s.sized e

  -- So does the end of a stream by itself, where the packet with its number has arrived.
  pub bare_end-IsSound :
      (n : ℕ) (st : Reception)
      → n < 2 ^ 31
      → member n arrived ≡ true
      → IsSound block arrived st
      → Holds (IsSound block (n ∷ arrived)) (process_data p id (bare_end id n) st).1
  bare_end-IsSound n st w there s =
      process-IsSound (bare_end id n) n true st s w
        (unpack_word-first (2 ^ 31 + n) (words_bytes (id ∷ [])) (omega arith))
        λ g e. (s.out, unwritten g e, nothing_written)
    where
      unwritten :
          (g : Gatherer)
          → write_payload st.gatherer (bare_end id n) n true ≡ ok g
          → g ≡ record st.gatherer { output = some s.out }
      unwritten g e =
          unfold write_payload in ok_eq e ∙ ap (λ o. record st.gatherer { output = o }) s.held

      nothing_written : Written block s.out s.out n
      nothing_written = (
        refl,
        λ i. in_packet n i (λ same. s.agrees i (rw same (s.knows n there))) (λ other. refl),
      )
