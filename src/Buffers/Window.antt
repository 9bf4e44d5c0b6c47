-- ===== src/Buffers/Window.antt =====
-- What an acknowledgement does to the queue of sent messages.
use mathlib.Core.Bool.{false≢true}
use spi_nnfront_end_common.Common.{
  lengths, ℕ, suc, ◌+◌, ◌-◌, ◌%◌, ◌≤◌, ◌<◌, ◌≡◌, refl, sym, ◌∙◌, ◌⊎◌, inl, inr, ◌↔◌, true, false,
  [], ◌∷◌, ◌++◌, ok, err, spinn_front_end_exception, length, drop, Bool-cases, length-append,
  length-drop, arith,
}
use spi_nnfront_end_common.Buffers.Sent.{
  Message, BuffersSentDeque, add_message_to_send, is_full, in_window,
  update_last_received_sequence_number,
}
use spi_nnfront_end_common.Buffers.Numbered.{
  IsWindow, IsNumbered-same, IsNumbered-drop, IsNumbered-append, remove-numbered,
}

-- The messages have consecutive numbers, from `s` on, that wrap at 256.
in_window_iff :
    (received last n : ℕ)
    → received < 256
    → last < 256
    → n < 256
    → (in_window received last ((last + n) % 256) ≡ true) ↔ ((received + 256 - last) % 256 ≤ n)
unfolding in_window
in_window_iff received last n r l w = ground arith

-- Acknowledging a sequence number below 256 is accepted exactly if the number is the last
-- acknowledged one or one of the `n` that follow it, where `n`, the size of a transmission, is below
-- 256; otherwise nothing changes.
pub update-window :
    (received : ℕ) (d : BuffersSentDeque)
    → received < 256
    → d.last_received_sequence_number < 256
    → d.n_sequences_per_transmission < 256
    → (((update_last_received_sequence_number received d).0 ≡ true) ↔ (
        (received + 256 - d.last_received_sequence_number) % 256 ≤ d.n_sequences_per_transmission))
      × (d.n_sequences_per_transmission < (received + 256 - d.last_received_sequence_number) % 256
          → update_last_received_sequence_number received d ≡ (false, d))
unfolding update_last_received_sequence_number
update-window received d r l w =
    let (accepts, within) =
      in_window_iff received d.last_received_sequence_number d.n_sequences_per_transmission r l w in
    elim (Bool-cases (
      in_window received d.last_received_sequence_number
        ((d.last_received_sequence_number + d.n_sequences_per_transmission) % 256))) [
          | inl accepted ↦ simp accepted (
            ((λ _. accepts accepted), (λ _. refl)),
            λ far. absurd (omega (arith, accepts accepted)),
          )
          | inr refused ↦ simp refused (
            ((λ e. absurd (false≢true e)), λ near. absurd (false≢true (sym refused ∙ within near))),
            λ far. refl,
          )
        ]

module _ (d : BuffersSentDeque) (w : IsWindow d) (k : ℕ) where
  -- The queue once its first `k` messages are acknowledged.
  abbrev pub acknowledged : BuffersSentDeque
  acknowledged = record d {
    last_received_sequence_number = (d.last_received_sequence_number + k) % 256;
    buffers_sent = drop k d.buffers_sent;
  }

  acknowledged-IsWindow : k ≤ length d.buffers_sent → IsWindow acknowledged
  acknowledged-IsWindow fits = record {
    numbered =
        IsNumbered-same (suc d.last_received_sequence_number + k) _ (drop k d.buffers_sent)
          (omega arith)
          (IsNumbered-drop k (suc d.last_received_sequence_number) d.buffers_sent w.numbered);
    next = w.next ∙ grind lengths;
    within = omega (arith, w.within, length-drop k d.buffers_sent);
    byte = omega arith;
  }

  -- Acknowledging the number of the `k`-th message in the queue, or the last acknowledged one again
  -- where `k` is 0, removes exactly the first `k` messages, also where the numbers have wrapped at
  -- 256, and the queue is again a window of consecutive numbers.
  pub update-acknowledged :
      k ≤ length d.buffers_sent
      → d.n_sequences_per_transmission < 256
      → (update_last_received_sequence_number ((d.last_received_sequence_number + k) % 256) d
          ≡ (true, acknowledged))
        × IsWindow acknowledged
  unfolding update_last_received_sequence_number
  update-acknowledged fits narrow =
      let accepted =
        (in_window_iff ((d.last_received_sequence_number + k) % 256) d.last_received_sequence_number
            d.n_sequences_per_transmission (omega arith) w.byte narrow).1
          (omega (arith, w.within, w.byte)) in
      (
        simp (
          accepted,
          remove-numbered d.last_received_sequence_number d.n_sequences_per_transmission k
              d.buffers_sent w.numbered fits w.within narrow w.byte,
        ),
        acknowledged-IsWindow fits,
      )

-- A message is refused if the queue is full; otherwise it is put behind the others with the next
-- number, and the queue stays a window.
pub add_message_to_send-IsWindow :
    (message : Message) (d : BuffersSentDeque)
    → IsWindow d
    → ((is_full d ≡ true) × (add_message_to_send message d ≡ err spinn_front_end_exception))
      ⊎ ((d' : BuffersSentDeque) × (add_message_to_send message d ≡ ok d')
          × (d'.buffers_sent
              ≡ d.buffers_sent
                ++ record {
                  region_id = d.region;
                  sequence_no = d.sequence_number;
                  message = message;
                }
                  ∷ [])
          × IsWindow d')
unfolding add_message_to_send is_full
add_message_to_send-IsWindow message d w = elim (Bool-cases (is_full d)) [
  | inl full ↦ rw full (inl (refl, refl))
  | inr room ↦ simp room (
      inr (
        _,
        refl,
        refl,
        record {
          numbered =
              IsNumbered-append (suc d.last_received_sequence_number) d.buffers_sent _ w.numbered
                w.next;
          next = omega (
            arith,
            w.next,
            length-append d.buffers_sent (
                record { region_id = d.region; sequence_no = d.sequence_number; message = message }
                ∷ []),
          );
          within = has_room room;
          byte = w.byte;
        },
      ))
]
  where
    has_room :
        is_full d ≡ false
        → length (
            d.buffers_sent
            ++ record { region_id = d.region; sequence_no = d.sequence_number; message = message }
              ∷ [])
          ≤ d.n_sequences_per_transmission
    has_room room = ground (
      arith,
      length-append d.buffers_sent (
          record { region_id = d.region; sequence_no = d.sequence_number; message = message } ∷ []),
    )
