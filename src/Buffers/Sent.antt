-- ===== src/Buffers/Sent.antt =====
-- The messages that were sent and not yet acknowledged (spinn_front_end_common/interface/
-- buffer_management/storage_objects/buffers_sent_deque.py).
use spi_nnfront_end_common.Common.{
  ℕ, ◌+◌, ◌%◌, Bool, true, false, ◌&&◌, ◌||◌, List, [], ◌∷◌, ◌++◌, Result, ok,
  spinn_front_end_exception, ltb, leb, ◌==◌, if◌then◌else◌, length, ◌>>◌, raise_if,
}

abbrev pub n_sequences : ℕ
n_sequences = 256

-- The messages of the protocol; of a data message only its keys matter here.
pub data Message : Type 0 where
  event_stop_request : Message
  data_message : List ℕ → Message

-- HostSendSequencedData
pub record Sequenced : Type 0 where
  pub region_id : ℕ
  pub sequence_no : ℕ
  pub message : Message

pub record BuffersSentDeque : Type 0 where
  pub region : ℕ
  pub buffers_sent : List Sequenced
  pub sequence_number : ℕ
  pub last_received_sequence_number : ℕ
  pub sent_stop_message : Bool
  pub n_sequences_per_transmission : ℕ

unfoldable pub new_deque : ℕ → Bool → ℕ → BuffersSentDeque
new_deque region sent_stop_message n = record {
  region = region;
  buffers_sent = [];
  sequence_number = 0;
  last_received_sequence_number = 255;
  sent_stop_message = sent_stop_message;
  n_sequences_per_transmission = n;
}

unfoldable pub is_full : BuffersSentDeque → Bool
is_full d = leb d.n_sequences_per_transmission (length d.buffers_sent)

unfoldable pub is_empty : BuffersSentDeque → Bool
is_empty d = length d.buffers_sent == 0

unfoldable pub add_message_to_send : Message → BuffersSentDeque → Result BuffersSentDeque
add_message_to_send message d = do
  raise_if (is_full d) spinn_front_end_exception
  ok (record d {
    sequence_number = (d.sequence_number + 1) % n_sequences;
    buffers_sent =
        d.buffers_sent
        ++ record { region_id = d.region; sequence_no = d.sequence_number; message = message } ∷ [];
  })

unfoldable pub send_stop_message : BuffersSentDeque → Result BuffersSentDeque
send_stop_message d =
    if d.sent_stop_message
    then ok d
    else add_message_to_send event_stop_request (record d { sent_stop_message = true })

-- The first loop of `_remove_messages`: `sequence_no > last - n + 256`.
unfoldable pub pop_wrapped : ℕ → ℕ → List Sequenced → List Sequenced
pop_wrapped last n [] = []
pop_wrapped last n (m ∷ ms) =
    let rest = pop_wrapped last n ms in
    if ltb (last + n_sequences) (m.sequence_no + n) then rest else m ∷ ms

-- The second loop: `last - n < sequence_no <= last`.
unfoldable pub pop_received : ℕ → ℕ → List Sequenced → List Sequenced
pop_received last n [] = []
pop_received last n (m ∷ ms) =
    let rest = pop_received last n ms in
    if ltb last (m.sequence_no + n) && leb m.sequence_no last then rest else m ∷ ms

-- `_remove_messages` on the queue; `last - n < 0` is `last < n`.
unfoldable pub remove_messages : ℕ → ℕ → List Sequenced → List Sequenced
remove_messages last n ms = pop_received last n (if ltb last n then pop_wrapped last n ms else ms)

-- `self._last_received_sequence_number = last; self._remove_messages()`
abbrev pub receive_up_to : ℕ → BuffersSentDeque → BuffersSentDeque
receive_up_to last d = record d {
  last_received_sequence_number = last;
  buffers_sent = remove_messages last d.n_sequences_per_transmission d.buffers_sent;
}

-- Whether the number lies in the window of what may be acknowledged.
unfoldable pub in_window : ℕ → ℕ → ℕ → Bool
in_window received low high =
    leb low received && leb received high
    || (ltb high low && (leb received high || (leb low received && leb received n_sequences)))

unfoldable pub update_last_received_sequence_number : ℕ → BuffersSentDeque → Bool × BuffersSentDeque
update_last_received_sequence_number received d =
    if in_window received d.last_received_sequence_number
      ((d.last_received_sequence_number + d.n_sequences_per_transmission) % n_sequences)
    then (true, receive_up_to received d)
    else (false, d)
