-- ===== src/Monitor/Reported.antt =====
-- What the monitor packs is what the status has.
use spi_nnfront_end_common.Common.{
  lengths, ==_cases, ℕ, zero, suc, ◌+◌, ◌*◌, ◌<◌, ◌≡◌, refl, ap, ◌∙◌, inl, inr, Bool, not, ◌&&◌,
  List, [], ◌∷◌, ◌++◌, append_assoc, ok, err, struct_error, ltb, Bool-cases, length, drop, ◌>>=◌,
  arith,
}
use spi_nnfront_end_common.Common.Numbers.{member}
use spi_nnfront_end_common.Common.Words.{
  Bytes, AllWords, words_bytes, unpack_words, unpack_words-pack,
}
use spi_nnfront_end_common.Monitor.Status.{
  ReinjectionStatus, read_status, status_of, has_bit, numbers_where, links_dropped_from,
  processors_dropped_from,
}

-- The words of a status, in the order in which the monitor packs them.
abbrev pub status_words : ReinjectionStatus → List ℕ
status_words s =
    s.wait1_timeout ∷ s.wait2_timeout ∷ s.n_dropped_packets ∷ s.n_missed_dropped_packets
    ∷ s.n_dropped_packet_overflows ∷ s.n_reinjected_packets ∷ s.n_link_dumps ∷ s.n_processor_dumps
    ∷ s.flags ∷ s.link_proc_bits ∷ []

drop-before : (before rest : Bytes) → drop (length before) (before ++ rest) ≡ rest
drop-before [] rest = refl
drop-before (b ∷ before) rest = drop-before before rest

unpack_words-short :
    (n : ℕ) (bytes : Bytes) → length bytes < 4 * n → unpack_words n bytes ≡ err struct_error
unfolding unpack_words
unpack_words-short zero bytes h = absurd (omega arith)
unpack_words-short (suc n) [] h = refl
unpack_words-short (suc n) (a ∷ []) h = refl
unpack_words-short (suc n) (a ∷ b ∷ []) h = refl
unpack_words-short (suc n) (a ∷ b ∷ c ∷ []) h = refl
unpack_words-short (suc n) (a ∷ b ∷ c ∷ d ∷ rest) h =
    rw (unpack_words-short n rest (omega arith)) refl

-- A status whose words fit in 32 bits is read back from wherever it stands in the bytes of a
-- response; where fewer bytes are left than its ten words take, reading raises struct.error.
pub read_status-status_words :
    (before after : Bytes) (s : ReinjectionStatus)
    → AllWords (status_words s)
    → (read_status (before ++ words_bytes (status_words s) ++ after) (length before) ≡ ok s)
      × ((bytes : Bytes) (offset : ℕ)
          → length bytes < offset + 4 * length (status_words s)
          → read_status bytes offset ≡ err struct_error)
unfolding read_status
read_status-status_words before after s h = (
  ap (λ b. unpack_words 10 b >>= status_of)
        (ap (λ b. drop (length before) b) (append_assoc before (words_bytes (status_words s)) after)
          ∙ drop-before before (words_bytes (status_words s) ++ after))
      ∙ ap (λ r. r >>= status_of) (unpack_words-pack (status_words s) after h),
  λ bytes offset short.
      ap (λ r. r >>= status_of) (unpack_words-short 10 (drop offset bytes) (grind lengths)),
)

member-numbers_where :
    (test : ℕ → Bool) (k n j : ℕ)
    → member j (numbers_where test k n) ≡ (not (ltb j n) && ltb j (n + k) && test j)
unfolding member numbers_where
member-numbers_where test zero n j = ground arith
member-numbers_where test (suc k) n j = elim (==_cases j n) [
  | inl (e, _) ↦ elim (Bool-cases (test n)) [
    | inl taken ↦ rw (e, taken) (ground arith)
    | inr left ↦ rw (e, left) (ground (arith, member-numbers_where test k (n + 1) n))
  ]
  | inr other ↦ elim (Bool-cases (test n)) [
    | inl taken ↦ rw taken (ground (arith, member-numbers_where test k (n + 1) j))
    | inr left ↦ rw left (ground (arith, member-numbers_where test k (n + 1) j))
  ]
]

-- The links and the processors from which packets were dropped are those whose bits the monitor
-- sets: link n has bit n, for the 6 links, and processor n bit n + 6, for the 18 processors.
dropped_from_lem :
    (s : ReinjectionStatus) (n : ℕ)
    → (member n (links_dropped_from s) ≡ (ltb n 6 && has_bit s.link_proc_bits n))
      × (member n (processors_dropped_from s) ≡ (ltb n 18 && has_bit s.link_proc_bits (n + 6)))
unfolding links_dropped_from processors_dropped_from
dropped_from_lem s n = (
  ground (arith, member-numbers_where (λ link. has_bit s.link_proc_bits link) 6 0 n),
  ground (arith, member-numbers_where (λ p. has_bit s.link_proc_bits (p + 6)) 18 0 n),
)
