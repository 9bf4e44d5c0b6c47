-- ===== src/Buffers/Manager.antt =====
-- How the buffer manager fills a region before the run (spinn_front_end_common/interface/
-- buffer_management/buffer_manager.py, and buffer_models/
-- sends_buffers_from_host_pre_buffered_impl.py, which passes each call on to the region's keys).
use spi_nnfront_end_common.Common.{
  ℕ, zero, suc, ◌+◌, ◌-◌, ◌*◌, ◌/◌, ◌%◌, min, Bool, true, false, not, ◌&&◌, Option, none, some,
  List, [], ◌∷◌, ◌++◌, Result, ok, spinn_front_end_exception, bufferable_region_too_small, ltb, leb,
  ◌==◌, if◌then◌else◌, length, ◌>>=◌, ◌>>◌, raise_if,
}
use spi_nnfront_end_common.Buffers.Region.{
  BufferedSendingRegion, n_timestamps, is_next_timestamp, next_timestamp, is_next_key, next_key,
}
use spi_nnfront_end_common.Buffers.Sent.{BuffersSentDeque, new_deque}

abbrev pub n_bytes_per_key : ℕ
n_bytes_per_key = 4

abbrev pub sdp_max_package_size : ℕ
sdp_max_package_size = 272

-- The sizes of the messages of the EIEIO library: a data message without keys, the least data
-- message, and the request to stop.
pub record Eieio : Type 0 where
  pub header_size : ℕ
  pub min_message_size : ℕ
  pub stop_request_size : ℕ

-- EIEIODataMessage with a timestamp and keys of 32 bits.
pub record DataMessage : Type 0 where
  pub timestamp : ℕ
  pub keys : List ℕ

-- `next_timestamp or 0`
abbrev pub timestamp_or_zero : Option ℕ → ℕ
timestamp_or_zero none = 0
timestamp_or_zero (some t) = t

unfoldable pub get_next_timestamp : BufferedSendingRegion → ℕ
get_next_timestamp r = timestamp_or_zero (next_timestamp r)

-- `is_empty`
abbrev pub has_no_timestamps : BufferedSendingRegion → Bool
has_no_timestamps r = n_timestamps r == 0

-- The loop that adds keys: `bytes_to_go >= _N_BYTES_PER_KEY` holds for as many rounds as keys fit.
unfoldable pub add_keys_to :
    ℕ → ℕ → List ℕ → BufferedSendingRegion → Result (List ℕ × BufferedSendingRegion)
add_keys_to zero timestamp keys r = ok (keys, r)
add_keys_to (suc rounds) timestamp keys r = elim (is_next_key timestamp r) [
  | false ↦ ok (keys, r)
  | true ↦ do taken ← next_key r; add_keys_to rounds timestamp (keys ++ taken.0 ∷ []) taken.1
]

module _ (eieio : Eieio) where
  abbrev pub size_of : DataMessage → ℕ
  size_of m = eieio.header_size + n_bytes_per_key * length m.keys

  -- The message, if there is one, and the region without its keys.
  unfoldable pub create_message_to_send :
      ℕ → BufferedSendingRegion → Result (Option DataMessage × BufferedSendingRegion)
  create_message_to_send size r =
      if not (is_next_timestamp r)
      then ok (none, r)
      else if ltb size (eieio.header_size + n_bytes_per_key)
      then ok (none, r)
      else do
        filled ←
            add_keys_to ((size - eieio.header_size) / n_bytes_per_key) (get_next_timestamp r) [] r
        ok (some (record { timestamp = get_next_timestamp r; keys = filled.0 }), filled.1)

  -- The variables of the loop: the messages in `all_data`, the bytes left and the region's keys.
  pub record Filling : Type 0 where
    pub all_data : List DataMessage
    pub bytes_to_go : ℕ
    pub keys_left : BufferedSendingRegion

  -- What a round does with the message; without one the loop ends.
  abbrev pub put_message : Filling → DataMessage → BufferedSendingRegion → Filling
  put_message st m r = record {
    all_data = st.all_data ++ m ∷ [];
    bytes_to_go = st.bytes_to_go - size_of m;
    keys_left = r;
  }

  abbrev pub space_available : Filling → ℕ
  space_available st = min st.bytes_to_go sdp_max_package_size

  abbrev pub goes_on : Filling → Bool
  goes_on st = is_next_timestamp st.keys_left && ltb eieio.min_message_size st.bytes_to_go

  -- The loop of `_send_initial_messages`, of at most `fuel` rounds.
  unfoldable pub fill : ℕ → Filling → Result Filling
  fill zero st = ok st
  fill (suc fuel) st = elim (goes_on st) [
    | false ↦ ok st
    | true ↦ do
      made ← create_message_to_send (space_available st) st.keys_left
      elim made.0 [ none ↦ ok st | some m ↦ fill fuel (put_message st m made.1) ]
  ]

  -- What `_send_initial_messages` writes, and the deque that it registers.
  pub record Initial : Type 0 where
    pub messages : List DataMessage
    pub stop_request : Bool
    pub sent_messages : Option BuffersSentDeque
    pub keys_left : BufferedSendingRegion

  -- The end: "If there are no more messages and there is space, add a stop request".
  unfoldable pub finish : ℕ → Filling → Initial
  finish region st =
      if not (is_next_timestamp st.keys_left) && leb eieio.stop_request_size st.bytes_to_go
      then record {
        messages = st.all_data;
        stop_request = true;
        sent_messages = some (new_deque region true 64);
        keys_left = st.keys_left;
      }
      else record {
        messages = st.all_data;
        stop_request = false;
        sent_messages = none;
        keys_left = st.keys_left;
      }

  unfoldable pub send_initial_messages : ℕ → ℕ → BufferedSendingRegion → Result Initial
  send_initial_messages region region_buffer_size r = do
    raise_if (not (region_buffer_size % 2 == 0)) spinn_front_end_exception
    let st : Filling = record { all_data = []; bytes_to_go = region_buffer_size; keys_left = r }
    if has_no_timestamps r then ok (finish region st) else do
      filled ← fill region_buffer_size st
      raise_if (length filled.all_data == 0) bufferable_region_too_small
      ok (finish region filled)
