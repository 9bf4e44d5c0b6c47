-- ===== src/Gatherer/DataIn/Packets.antt =====
-- The single messages of the data-in protocol (spinn_front_end_common/utility_models/
-- data_speed_up_packet_gatherer_machine_vertex.py).
use spi_nnfront_end_common.Common.{
  ℕ, zero, suc, ◌+◌, ◌-◌, ◌*◌, ◌/◌, Bool, true, false, Option, none, some, List, [], ◌∷◌, ◌++◌,
  Result, ok, err, value_error, struct_error, index_error, leb, ◌==◌, if◌then◌else◌, length, slice,
  drop, ◌>>=◌, ◌>>◌, raise_if,
}
use spi_nnfront_end_common.Common.Words.{Bytes, pack_words, unpack_words}
use spi_nnfront_end_common.Common.Numbers.{update}
use spi_nnfront_end_common.Gatherer.{
  Gatherer, SdpMessage, extra_monitor_core_data_in_speed_up, reply_not_expected, placement,
  bytes_per_word, bytes_in_full_packet_with_key,
}

-- _DataInCommands
abbrev pub command_send_data_to_location : ℕ
command_send_data_to_location = 200

abbrev pub command_send_seq_data : ℕ
command_send_seq_data = 2000

abbrev pub command_send_tell : ℕ
command_send_tell = 2001

abbrev pub command_receive_missing_seq_data : ℕ
command_receive_missing_seq_data = 2002

abbrev pub command_receive_finished : ℕ
command_receive_finished = 2003

abbrev pub missing_seq_nums_end_flag : ℕ
missing_seq_nums_end_flag = 0xFFFFFFFF

abbrev pub flag_for_missing_all_sequences : ℕ
flag_for_missing_all_sequences = 0xFFFFFFFE

unfoldable pub make_data_in_message : Gatherer → Bytes → Result SdpMessage
make_data_in_message g payload = do
  p ← placement g
  ok (record {
    destination_chip_x = p.x;
    destination_chip_y = p.y;
    destination_cpu = p.p;
    destination_port = extra_monitor_core_data_in_speed_up;
    flags = reply_not_expected;
    payload = payload;
  })

unfoldable pub position_from_seq_number : ℕ → ℕ
position_from_seq_number seq_num = bytes_in_full_packet_with_key * seq_num

-- `if position is None`
abbrev pub position_or_inferred : ℕ → Option ℕ → ℕ
position_or_inferred seq_num none = position_from_seq_number seq_num
position_or_inferred seq_num (some position) = position

-- What follows once the position is known: the length is cut to what is left of the data, and a
-- negative length is an error.
unfoldable pub packet_data_length : Bytes → ℕ → Result ℕ
packet_data_length data_to_write position =
    if leb (position + bytes_in_full_packet_with_key) (length data_to_write)
    then ok bytes_in_full_packet_with_key
    else if leb position (length data_to_write)
    then ok (length data_to_write - position)
    else err value_error

unfoldable pub make_data_in_stream_message :
    Gatherer → Bytes → ℕ → Option ℕ → Result (SdpMessage × ℕ)
make_data_in_stream_message g data_to_write seq_num position = do
  let start = position_or_inferred seq_num position
  n ← packet_data_length data_to_write start
  header ← pack_words (command_send_seq_data ∷ g.transaction_id ∷ seq_num ∷ [])
  message ← make_data_in_message g (header ++ slice data_to_write start (start + n))
  ok (message, n)

-- The payload of `__send_location`. The number of the last packet, `_max_seq_num - 1`, is negative
-- where there is no packet, and `struct` refuses it, as it refuses `None`.
unfoldable pub location_message : Gatherer → ℕ → Result SdpMessage
location_message g start_address = do
  raise_if (g.max_seq_num == 0) struct_error
  coord ← elim g.coord_word [ none ↦ err struct_error | some c ↦ ok c ]
  payload ← pack_words (
      command_send_data_to_location
      ∷ g.transaction_id
      ∷ start_address
      ∷ coord
      ∷ (g.max_seq_num - 1)
      ∷ [])
  make_data_in_message g payload

unfoldable pub tell_message : Gatherer → Result SdpMessage
tell_message g = do
  payload ← pack_words (command_send_tell ∷ g.transaction_id ∷ [])
  make_data_in_message g payload

-- The numbers from `n` on, `k` of them: `range(n, n + k)`.
abbrev pub range : ℕ → ℕ → List ℕ
range n zero = []
range n (suc k) = n ∷ range (suc n) k

-- `new_seq_nums[-1]` and `new_seq_nums[:-1]`
abbrev pub last : List ℕ → Result ℕ
last [] = err index_error
last (n ∷ []) = ok n
last (n ∷ m ∷ ms) = last (m ∷ ms)

abbrev pub but_last : List ℕ → List ℕ
but_last [] = []
but_last (n ∷ []) = []
but_last (n ∷ m ∷ ms) = n ∷ but_last (m ∷ ms)

-- What the second test of `_read_in_missing_seq_nums` does to the set.
unfoldable pub add_missing : Gatherer → List ℕ → List ℕ → Bool → Result (List ℕ × Bool × Bool)
add_missing g new_seq_nums seq_nums seen_last = do
  final ← last new_seq_nums
  if final == flag_for_missing_all_sequences
      then ok (update (range 0 g.max_seq_num) seq_nums, seen_last, true)
      else ok (update new_seq_nums seq_nums, seen_last, false)

-- The set with what the packet adds, and the flags `seen_last` and `seen_all`. The caller has read
-- two words from the packet, so that it reaches `position`.
unfoldable pub read_in_missing_seq_nums :
    Gatherer → Bytes → ℕ → List ℕ → Result (List ℕ × Bool × Bool)
read_in_missing_seq_nums g packet_data position seq_nums = do
  let n_elements = (length packet_data - position) / bytes_per_word
  new_seq_nums ← unpack_words n_elements (drop position packet_data)
  final ← last new_seq_nums
  if final == missing_seq_nums_end_flag
      then add_missing g (but_last new_seq_nums) seq_nums true
      else add_missing g new_seq_nums seq_nums false
