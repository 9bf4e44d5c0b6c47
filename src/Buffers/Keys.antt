-- ===== src/Buffers/Keys.antt =====
-- The keys of messages with their timestamps.
use mathlib.Core.Bool.{false≢true}
use spi_nnfront_end_common.Common.{
  ℕ, ◌≤◌, ◌<◌, ◌≡◌, refl, sym, ap, ◌∙◌, inl, inr, true, List, [], ◌∷◌, ◌++◌, map, append_assoc,
  append-nil, length, length-drop, All, All-imp, ltb→lt, arith,
}
use spi_nnfront_end_common.Common.Numbers.{member}
use spi_nnfront_end_common.Buffers.Region.{
  BufferedSendingRegion, is_next_timestamp, next_timestamp, is_next_key,
}
use spi_nnfront_end_common.Buffers.Pending.{pending, IsWell}
use spi_nnfront_end_common.Buffers.Taking.{member-first, get_elem?-drop_cons}
use spi_nnfront_end_common.Buffers.Takes.{with_timestamp, is_next_key-some}
use spi_nnfront_end_common.Buffers.Manager.{DataMessage, get_next_timestamp}

abbrev pub stamped : DataMessage → List (ℕ × ℕ)
stamped m = map (with_timestamp m.timestamp) m.keys

pub has_key :
    (r : BufferedSendingRegion) (w : IsWell r) (t : ℕ) (ts : List ℕ)
    → pending r ≡ t ∷ ts
    → is_next_key t r ≡ true
has_key r w t ts at = elim (w.held t) [
  | inl (e, out) ↦ absurd (false≢true (sym (ap (member t) (sym at) ∙ out) ∙ member-first t ts))
  | inr (keys, e, some_key, here) ↦ is_next_key-some t r keys e some_key
]

-- The keys of all messages, in order.
abbrev pub keys_of : List DataMessage → List (ℕ × ℕ)
keys_of [] = []
keys_of (m ∷ ms) = stamped m ++ keys_of ms

pub keys_of-append :
    (ms : List DataMessage) (m : DataMessage) → keys_of ms ++ stamped m ≡ keys_of (ms ++ m ∷ [])
keys_of-append [] m = sym (append-nil (stamped m))
keys_of-append (a ∷ ms) m =
    append_assoc (stamped a) (keys_of ms) (stamped m)
    ∙ ap (λ l. stamped a ++ l) (keys_of-append ms m)

pub first_pending :
    (r : BufferedSendingRegion) (w : IsWell r)
    → is_next_timestamp r ≡ true
    → (All (λ s. get_next_timestamp r ≤ s) (pending r))
      × (is_next_key (get_next_timestamp r) r ≡ true)
unfolding is_next_timestamp get_next_timestamp next_timestamp
first_pending r w next = by_pending (pending r) refl
  where
    by_pending :
        (ts : List ℕ)
        → pending r ≡ ts
        → (All (λ s. get_next_timestamp r ≤ s) (pending r))
          × (is_next_key (get_next_timestamp r) r ≡ true)
    by_pending [] at = absurd (
        omega (
          arith,
          length-drop r.current_timestamp_pos r.timestamps,
          ap length at,
          ltb→lt r.current_timestamp_pos (length r.timestamps) next,
        ))
    by_pending (t ∷ ts) at =
        let (first, others, more) =
          get_elem?-drop_cons r.current_timestamp_pos t r.timestamps ts at in
        rw (first, at)
          (
            (
              omega arith,
              All-imp (λ s. t < s) (λ s. t ≤ s) (λ s lt. omega arith) ts (rw at at w.ascends).0,
            ),
            has_key r w t ts at,
          )
