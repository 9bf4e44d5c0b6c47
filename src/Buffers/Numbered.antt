-- ===== src/Buffers/Numbered.antt =====
-- Removing the acknowledged messages from a queue of consecutive numbers, also across the wrap.
use native.Mathlib.Decide.{dec_lt}
use spi_nnfront_end_common.Common.{
  lengths, ℕ, zero, suc, ◌+◌, ◌-◌, ◌%◌, ◌≤◌, ◌<◌, ◌≡◌, refl, ap, ◌∙◌, inl, inr, true, ◌&&◌, List,
  [], ◌∷◌, ◌++◌, ltb, leb, if◌then◌else◌, length, drop, drop-drop, Bool-cases, lt→ltb, arith,
}
use spi_nnfront_end_common.Buffers.Sent.{
  Sequenced, BuffersSentDeque, n_sequences, pop_wrapped, pop_received, remove_messages,
}

abbrev pub IsNumbered : ℕ → List Sequenced → Type 0
IsNumbered s [] = Unit {0}
IsNumbered s (m ∷ ms) = (m.sequence_no ≡ s % 256) × IsNumbered (suc s) ms

-- The queue holds what was sent since the last acknowledged number, and no more than it may.
pub record IsWindow (d : BuffersSentDeque) : Type 0 where
  pub numbered : IsNumbered (suc d.last_received_sequence_number) d.buffers_sent
  pub next : d.sequence_number ≡ (suc d.last_received_sequence_number + length d.buffers_sent) % 256
  pub within : length d.buffers_sent ≤ d.n_sequences_per_transmission
  pub byte : d.last_received_sequence_number < 256

-- Where no number has wrapped, those up to the acknowledged one go.
pop_received-numbered :
    (k s received n : ℕ) (ms : List Sequenced)
    → IsNumbered s ms
    → k ≤ length ms
    → k ≤ received + 1
    → k ≤ n
    → n < 256
    → received < 256
    → s % 256 ≡ (received + 1 - k) % 256
    → pop_received received n ms ≡ drop k ms
unfolding pop_received
pop_received-numbered zero s received n [] h fits low small narrow byte at = refl
pop_received-numbered zero s received n (m ∷ ms) h fits low small narrow byte at = ground arith
pop_received-numbered (suc k) s received n [] h fits low small narrow byte at = absurd (omega arith)
pop_received-numbered (suc k) s received n (m ∷ ms) h fits low small narrow byte at =
    let gone : (ltb received (m.sequence_no + n) && leb m.sequence_no received) ≡ true =
      ground arith in
    rw
      (
        gone,
        pop_received-numbered k (suc s) received n ms h.1 (omega arith) (omega arith) (omega arith)
            narrow byte (omega arith),
      )
      refl

-- The numbers that have wrapped go first.
pop_wrapped-numbered :
    (k s received n : ℕ) (ms : List Sequenced)
    → IsNumbered s ms
    → k ≤ length ms
    → k + received < n
    → n < 256
    → s % 256 ≡ (256 - k) % 256
    → pop_wrapped received n ms ≡ drop k ms
unfolding pop_wrapped
pop_wrapped-numbered zero s received n [] h fits small narrow at = refl
pop_wrapped-numbered zero s received n (m ∷ ms) h fits small narrow at = ground arith
pop_wrapped-numbered (suc k) s received n [] h fits small narrow at = absurd (omega arith)
pop_wrapped-numbered (suc k) s received n (m ∷ ms) h fits small narrow at =
    let gone : ltb (received + n_sequences) (m.sequence_no + n) ≡ true = ground arith in
    rw
      (
        gone,
        pop_wrapped-numbered k (suc s) received n ms h.1 (omega arith) (omega arith) narrow
            (omega arith),
      )
      refl

pop_wrapped-stays :
    (s received n : ℕ) (ms : List Sequenced)
    → IsNumbered s ms
    → s % 256 + n ≤ received + 256
    → pop_wrapped received n ms ≡ ms
unfolding pop_wrapped
pop_wrapped-stays s received n [] h low = refl
pop_wrapped-stays s received n (m ∷ ms) h low = ground arith

pub IsNumbered-same :
    (s t : ℕ) (ms : List Sequenced) → s % 256 ≡ t % 256 → IsNumbered s ms → IsNumbered t ms
IsNumbered-same s t [] e h = tt
IsNumbered-same s t (m ∷ ms) e h = (h.0 ∙ e, IsNumbered-same (suc s) (suc t) ms (omega arith) h.1)

pub IsNumbered-drop :
    (k s : ℕ) (ms : List Sequenced) → IsNumbered s ms → IsNumbered (s + k) (drop k ms)
IsNumbered-drop zero s ms h = IsNumbered-same s (s + 0) ms (omega arith) h
IsNumbered-drop (suc k) s [] h = tt
IsNumbered-drop (suc k) s (m ∷ ms) h =
    IsNumbered-same (suc s + k) (s + suc k) (drop k ms) (omega arith)
      (IsNumbered-drop k (suc s) ms h.1)

pub IsNumbered-append :
    (s : ℕ) (ms : List Sequenced) (m : Sequenced)
    → IsNumbered s ms
    → m.sequence_no ≡ (s + length ms) % 256
    → IsNumbered s (ms ++ m ∷ [])
IsNumbered-append s [] m h e = (e ∙ omega arith, tt)
IsNumbered-append s (a ∷ ms) m h e = (h.0, IsNumbered-append (suc s) ms m h.1 (e ∙ omega arith))

module _ (last n k : ℕ) (ms : List Sequenced) (h : IsNumbered (suc last) ms) (fits : k ≤ length ms)
    (few : length ms ≤ n) (narrow : n < 256) (byte : last < 256) where
  remove-straight : last + k < 256 → remove_messages (last + k) n ms ≡ drop k ms
  unfolding remove_messages
  remove-straight straight =
      let kept : (if ltb (last + k) n then pop_wrapped (last + k) n ms else ms) ≡ ms =
        elim (Bool-cases (ltb (last + k) n)) [
          | inl low ↦ rw low (pop_wrapped-stays (suc last) (last + k) n ms h (omega arith))
          | inr high ↦ rw high refl
        ] in
      rw kept (
        pop_received-numbered k (suc last) (last + k) n ms h fits (omega arith) (omega arith) narrow
          (omega arith) (omega arith))

  remove-wrapped : (r : ℕ) → last + k ≡ r + 256 → remove_messages r n ms ≡ drop k ms
  unfolding remove_messages
  remove-wrapped r e =
      let wrapped = 255 - last in
      rw
        (
          lt→ltb r n (omega arith),
          pop_wrapped-numbered wrapped (suc last) r n ms h (omega arith) (omega arith) narrow
              (omega arith),
          pop_received-numbered (suc r) (suc last + wrapped) r n (drop wrapped ms)
              (IsNumbered-drop wrapped (suc last) ms h) (grind lengths) (omega arith) (omega arith)
              narrow (omega arith) (omega arith),
          drop-drop (suc r) wrapped ms,
        )
        (ap (λ i. drop i ms) (omega arith))

  pub remove-numbered : remove_messages ((last + k) % 256) n ms ≡ drop k ms
  remove-numbered = elim (dec_lt (last + k) 256) [
    | yes straight ↦ ap (λ r. remove_messages r n ms) (omega arith) ∙ remove-straight straight
    | no wraps ↦
        ap (λ r. remove_messages r n ms) (omega arith)
        ∙ remove-wrapped (last + k - 256) (omega arith)
  ]

-- The window test accepts exactly the last acknowledged number and the `n` that follow it.
