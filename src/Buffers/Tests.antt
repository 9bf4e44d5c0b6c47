-- ===== src/Buffers/Tests.antt =====
-- A region with three keys, a queue of messages that wraps, and the theorems at them.
use spi_nnfront_end_common.Common.{
  length, ◌+◌, ◌-◌, ◌%◌, ◌≤◌, ◌<◌, ◌≡◌, refl, ◌⊎◌, inl, ◌↔◌, true, false, [], ◌∷◌, ◌++◌, err, ok,
  ◌==◌, spinn_front_end_exception, bufferable_region_too_small, arith,
}
use spi_nnfront_end_common.Common.Numbers.{member}
use spi_nnfront_end_common.Common.Maps.{lookup, assign}
use spi_nnfront_end_common.Buffers.Region.{BufferedSendingRegion, empty_region, add_key, insort}
use spi_nnfront_end_common.Buffers.Sent.{
  BuffersSentDeque, event_stop_request, data_message, add_message_to_send, is_full,
  update_last_received_sequence_number,
}
use spi_nnfront_end_common.Buffers.Window.{
  acknowledged, update-window, update-acknowledged, add_message_to_send-IsWindow,
}
use spi_nnfront_end_common.Buffers.Numbered.{IsWindow}
use spi_nnfront_end_common.Buffers.Queue.{insert_key}
use spi_nnfront_end_common.Buffers.Pending.{queue, IsWell, add_key-queue}
use spi_nnfront_end_common.Buffers.Taking.{Refines, next_key-Refines}
use spi_nnfront_end_common.Buffers.Manager.{
  has_no_timestamps, Eieio, Initial, send_initial_messages,
}
use spi_nnfront_end_common.Buffers.Filled.{NothingFits, Loaded, send_initial_messages-Loaded}

empty-IsWell : IsWell empty_region
unfolding lookup member
empty-IsWell = record { started = omega arith; ascends = tt; held = λ t. inl (refl, refl) }

-- Time 5 is added before time 3.
abbrev one_key : BufferedSendingRegion
one_key = record { buffer = (5, 9 ∷ []) ∷ []; timestamps = 5 ∷ []; current_timestamp_pos = 0 }

one_key-IsWell : IsWell one_key
unfolding add_key insort lookup assign
one_key-IsWell = (add_key-queue 5 9 empty_region empty-IsWell tt).1

add_key-queue_example :
    (queue (add_key 3 8 one_key) ≡ insert_key 3 8 (queue one_key)) × IsWell (add_key 3 8 one_key)
add_key-queue_example = add_key-queue 3 8 one_key one_key-IsWell tt

next_key-Refines_example : Refines one_key
next_key-Refines_example = next_key-Refines one_key one_key-IsWell

abbrev eieio : Eieio
eieio = record { header_size = 6; min_message_size = 6; stop_request_size = 2 }

send_initial_messages-Loaded_example :
    ((send_initial_messages eieio 1 12 one_key ≡ err spinn_front_end_exception)
      × ((12 % 2 == 0) ≡ false))
    ⊎ (((send_initial_messages eieio 1 12 one_key ≡ err bufferable_region_too_small)
          × NothingFits eieio 12 one_key)
        ⊎ ((i : Initial eieio) × (send_initial_messages eieio 1 12 one_key ≡ ok i)
            × Loaded eieio 12 one_key i
            × ((has_no_timestamps one_key ≡ true) ⊎ (0 < length i.messages))))
send_initial_messages-Loaded_example =
    send_initial_messages-Loaded eieio 1 12 one_key one_key-IsWell

-- The numbers 255 and 0 are sent, 254 was acknowledged.
abbrev two_sent : BuffersSentDeque
two_sent = record {
  region = 1;
  buffers_sent =
      record { region_id = 1; sequence_no = 255; message = data_message (7 ∷ []) }
      ∷ record { region_id = 1; sequence_no = 0; message = data_message (8 ∷ []) }
      ∷ [];
  sequence_number = 1;
  last_received_sequence_number = 254;
  sent_stop_message = false;
  n_sequences_per_transmission = 64;
}

two_sent-IsWindow : IsWindow two_sent
two_sent-IsWindow = record {
  numbered = (refl, (refl, tt));
  next = refl;
  within = omega arith;
  byte = omega arith;
}

update-window_example :
    (((update_last_received_sequence_number 100 two_sent).0 ≡ true)
      ↔ ((100 + 256 - 254) % 256 ≤ 64))
    × (64 < (100 + 256 - 254) % 256
        → update_last_received_sequence_number 100 two_sent ≡ (false, two_sent))
update-window_example = update-window 100 two_sent (omega arith) (omega arith) (omega arith)

update-acknowledged_example :
    (update_last_received_sequence_number ((254 + 2) % 256) two_sent
      ≡ (true, acknowledged two_sent two_sent-IsWindow 2))
    × IsWindow (acknowledged two_sent two_sent-IsWindow 2)
update-acknowledged_example =
    update-acknowledged two_sent two_sent-IsWindow 2 (omega arith) (omega arith)

add_message_to_send-IsWindow_example :
    ((is_full two_sent ≡ true)
      × (add_message_to_send event_stop_request two_sent ≡ err spinn_front_end_exception))
    ⊎ ((d' : BuffersSentDeque) × (add_message_to_send event_stop_request two_sent ≡ ok d')
        × (d'.buffers_sent
            ≡ two_sent.buffers_sent
              ++ record { region_id = 1; sequence_no = 1; message = event_stop_request } ∷ [])
        × IsWindow d')
add_message_to_send-IsWindow_example =
    add_message_to_send-IsWindow event_stop_request two_sent two_sent-IsWindow
