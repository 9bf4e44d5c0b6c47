-- ===== src/Gatherer/DataIn/Exchange.antt =====
-- The exchange with the board and its callers (spinn_front_end_common/utility_models/
-- data_speed_up_packet_gatherer_machine_vertex.py). Each reply, or timeout, is one event; a run
-- that waits for a further event when the list ends is `waiting`.
use Prim.Native.Nat.{bit_or}
use spi_nnfront_end_common.Common.{
  ℕ, ◌+◌, ◌*◌, ◌%◌, ◌^◌, min, Bool, not, ◌||◌, Option, none, some, List, [], ◌∷◌, ◌++◌, Result, ok,
  err, Error, value_error, ltb, ◌==◌, if◌then◌else◌, length, slice, take, ◌>>=◌, ◌>>◌, raise_if,
}
use spi_nnfront_end_common.Common.Words.{Bytes, unpack_words}
use spi_nnfront_end_common.Common.Int.{ℤ, pos, negsuc}
use spi_nnfront_end_common.Gatherer.{
  Gatherer, SdpMessage, Event, packet, timeout, ceildiv, bytes_in_full_packet_with_key,
  bytes_for_reception_command_and_address_header, timeout_retry_limit, transaction_id_cap,
}
use spi_nnfront_end_common.Gatherer.DataIn.Packets.{
  command_receive_missing_seq_data, command_receive_finished, read_in_missing_seq_nums,
}
use spi_nnfront_end_common.Gatherer.DataIn.Stream.{
  send_all_data_based_packets, outgoing_retransmit_missing_seq_nums,
}

-- The variables of the loop: the buffer of missing numbers, `None` before a packet has come back,
-- and the timeouts since the last packet.
pub record Progress : Type 0 where
  pub missing : Option (List ℕ)
  pub time_out_count : ℕ

-- How far a run came. `raised` carries the state too; `gave_up` is the exception after which
-- `emergency_recover_state_from_failure` was called.
pub data Ending : Type 0 where
  waiting finished gave_up : Progress → Ending
  raised : Error → Progress → Ending

abbrev pub Step : Type 0
Step = List SdpMessage × Ending

-- A call that sends, and the state in which the loop goes on.
abbrev pub proceed : List SdpMessage × Result (Unit {0}) → Progress → Progress → Step
proceed (sent, ok _) before after = (sent, waiting after)
proceed (sent, err e) before after = (sent, raised e before)

-- What follows a round: the next one, unless the run is over.
abbrev pub onward : Step → (Progress → Step) → Step
onward (sent, waiting st) next = (sent ++ (next st).0, (next st).1)
onward (sent, finished st) next = (sent, finished st)
onward (sent, gave_up st) next = (sent, gave_up st)
onward (sent, raised e st) next = (sent, raised e st)

-- `missing`, or the new empty set
abbrev pub missing_so_far : Option (List ℕ) → List ℕ
missing_so_far none = []
missing_so_far (some s) = s

module _ (g : Gatherer) (data_to_write : Bytes) (start_address : ℕ) where
  -- The accumulated numbers are sent again once a packet ends the report.
  abbrev pub accumulate : Progress → List ℕ → Result (List ℕ × Bool × Bool) → Step
  accumulate st seen (err e) = ([], raised e (record st { missing = some seen }))
  accumulate st seen (ok (s, seen_last, seen_all)) =
      if seen_all || seen_last
      then proceed (outgoing_retransmit_missing_seq_nums g data_to_write s)
          (record st { missing = some s }) (record st { missing = some [] })
      else ([], waiting (record st { missing = some s }))

  -- What is done with a packet once its two header words are read.
  abbrev pub dispatch : Progress → Bytes → Result (List ℕ) → Step
  dispatch st bytes (ok (cmd ∷ transaction_id ∷ [])) =
      if not (g.transaction_id == transaction_id)
      then ([], waiting st)
      else if cmd == command_receive_finished
      then ([], finished st)
      else if not (cmd == command_receive_missing_seq_data)
      then ([], raised value_error st)
      else accumulate st (missing_so_far st.missing) (
          read_in_missing_seq_nums g bytes bytes_for_reception_command_and_address_header
            (missing_so_far st.missing))
  dispatch st bytes (ok _) = ([], raised value_error st)
  dispatch st bytes (err e) = ([], raised e st)

  unfoldable pub on_packet : Progress → Bytes → Step
  on_packet st bytes = dispatch (record st { time_out_count = 0 }) bytes (unpack_words 2 bytes)

  -- Without a buffer the outer loop starts again and sends everything.
  abbrev pub resend : Progress → Option (List ℕ) → Step
  resend st none = proceed (send_all_data_based_packets g data_to_write start_address) st st
  resend st (some s) =
      proceed (outgoing_retransmit_missing_seq_nums g data_to_write s) st
        (record st { missing = some [] })

  unfoldable pub on_timeout : Progress → Step
  on_timeout st =
      let st' = record st { time_out_count = st.time_out_count + 1 } in
      if ltb timeout_retry_limit st'.time_out_count
      then ([], gave_up st')
      else resend st' st.missing

  unfoldable pub on_event : Progress → Event → Step
  on_event st (packet bytes) = on_packet st bytes
  on_event st timeout = on_timeout st

  -- The loop `while not received_confirmation`, one event a round.
  unfoldable pub exchange : Progress → List Event → Step
  exchange st [] = ([], waiting st)
  exchange st (e ∷ es) = onward (on_event st e) (λ st'. exchange st' es)

-- The buffer is an entry of `_missing_seq_nums_data_in` from its creation on, so that list shows
-- what the buffer holds at the end.
abbrev pub buffer_of : Ending → Option (List ℕ)
buffer_of (waiting st) = st.missing
buffer_of (finished st) = st.missing
buffer_of (gave_up st) = st.missing
buffer_of (raised e st) = st.missing

abbrev pub log_buffer : Gatherer → Ending → Gatherer
log_buffer g ending = elim (buffer_of ending) [
  | none ↦ g
  | some s ↦ record g { missing_seq_nums_data_in = g.missing_seq_nums_data_in ++ s ∷ [] }
]

abbrev pub fresh : Progress
fresh = record { missing = none; time_out_count = 0 }

-- What a call prepares: the number of packets, the word with the chip's local coordinates, and the
-- next transaction id after the one that the machine holds.
unfoldable pub prepare : Gatherer → Bytes → ℕ → ℕ → ℕ → Result Gatherer
prepare g data_to_write dest_x dest_y machine_transaction_id = do
  n ← ceildiv (length data_to_write) bytes_in_full_packet_with_key
  ok (record g {
    max_seq_num = n;
    coord_word = some (bit_or (dest_x * 2 ^ 16) dest_y);
    transaction_id = (machine_transaction_id + 1) % (transaction_id_cap + 1);
  })

-- The first round of the outer loop sends everything, and the replies follow.
unfoldable pub run_transfer : Gatherer → Bytes → ℕ → List Event → Step
run_transfer g data_to_write start_address events =
    let (sent, outcome) = send_all_data_based_packets g data_to_write start_address in
    elim outcome [
      | ok _ ↦
          let (more, ending) = exchange g data_to_write start_address fresh events in
          (sent ++ more, ending)
      | err e ↦ (sent, raised e fresh)
    ]

unfoldable pub send_data_via_extra_monitors :
    Gatherer → ℕ → ℕ → ℕ → ℕ → Bytes → List Event → Gatherer × Step
send_data_via_extra_monitors g dest_x dest_y machine_transaction_id start_address data_to_write
      events =
    elim (prepare g data_to_write dest_x dest_y machine_transaction_id) [
      | err e ↦ (g, ([], raised e fresh))
      | ok g' ↦
          let step = run_transfer g' data_to_write start_address events in
          (log_buffer g' step.1, step)
    ]

-- The argument `data`: a file by its name, here with its contents, or bytes; anything else is
-- refused.
pub data Source : Type 0 where
  file : Bytes → Source
  buffer : Bytes → Source
  other : Source

-- `reader.read(n_bytes)` and the new `n_bytes`: None and a negative number read everything.
abbrev pub read_file : Bytes → Option ℤ → Bytes × ℤ
read_file contents none = (contents, pos (length contents))
read_file contents (some (pos n)) = (take n contents, pos (min n (length (take n contents))))
read_file contents (some (negsuc n)) = (contents, negsuc n)

-- The bytes to write, `data[offset:n_bytes + offset]`, or the error of a guard.
abbrev pub cut : Bytes → ℤ → ℕ → Result Bytes
cut contents (negsuc n) offset = err value_error
cut contents (pos n) offset = ok (slice contents offset (n + offset))

unfoldable pub data_to_send : Source → Option ℤ → ℕ → Result Bytes
data_to_send (file contents) n_bytes offset = do
  raise_if (not (offset == 0)) value_error
  cut (read_file contents n_bytes).0 (read_file contents n_bytes).1 offset
data_to_send (buffer contents) none offset = cut contents (pos (length contents)) offset
data_to_send (buffer contents) (some n_bytes) offset = cut contents n_bytes offset
data_to_send other n_bytes offset = err value_error

-- `send_data_into_spinnaker`, with the chip's local coordinates.
unfoldable pub send_data_into_spinnaker :
    Gatherer → ℕ → ℕ → ℕ → ℕ → Source → Option ℤ → ℕ → List Event → Gatherer × Step
send_data_into_spinnaker g x y machine_transaction_id base_address source n_bytes offset events =
    elim (data_to_send source n_bytes offset) [
      | err e ↦ (g, ([], raised e fresh))
      | ok bytes ↦
          send_data_via_extra_monitors g x y machine_transaction_id base_address bytes events
    ]
