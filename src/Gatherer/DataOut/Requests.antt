-- ===== src/Gatherer/DataOut/Requests.antt =====
-- Which packets are missing, and how they are requested again (spinn_front_end_common/
-- utility_models/data_speed_up_packet_gatherer_machine_vertex.py).
use spi_nnfront_end_common.Common.{
  ℕ, zero, suc, ◌+◌, ◌-◌, min, Bool, true, false, List, [], ◌∷◌, ◌++◌, Result, ok, err,
  struct_error, ltb, if◌then◌else◌, length, slice,
}
use spi_nnfront_end_common.Common.Words.{Bytes, pack_words}
use spi_nnfront_end_common.Common.Numbers.{member}
use spi_nnfront_end_common.Common.Sends.{Send, pure, lift, send, ◌>>=◌, ◌>>◌}
use spi_nnfront_end_common.Gatherer.{
  Gatherer, Placement, SdpMessage, extra_monitor_core_data_speed_up, reply_not_expected, ceildiv,
  words_per_full_packet, words_for_command_n_missing_transaction, words_for_command_transaction,
  words_per_full_packet_with_sequence_num,
}

-- _DataOutCommands
abbrev pub command_start_sending : ℕ
command_start_sending = 100

abbrev pub command_start_missing_seq : ℕ
command_start_missing_seq = 1000

abbrev pub command_missing_seq : ℕ
command_missing_seq = 1001

abbrev pub command_clear : ℕ
command_clear = 2000

unfoldable pub make_data_out_message : Placement → Bytes → SdpMessage
make_data_out_message p bytes = record {
  destination_chip_x = p.x;
  destination_chip_y = p.y;
  destination_cpu = p.p;
  destination_port = extra_monitor_core_data_speed_up;
  flags = reply_not_expected;
  payload = bytes;
}

-- The numbers from `n` on, `rounds` of them, that are not in the set.
unfoldable pub missing_from : ℕ → ℕ → List ℕ → List ℕ
missing_from n zero seq_nums = []
missing_from n (suc rounds) seq_nums =
    let rest = missing_from (suc n) rounds seq_nums in if member n seq_nums then rest else n ∷ rest

-- `[sn for sn in range(self._max_seq_num) if sn not in seq_nums]`
unfoldable pub missing_seq_nums : Gatherer → List ℕ → List ℕ
missing_seq_nums g seq_nums = missing_from 0 g.max_seq_num seq_nums

-- `n_packets = 1`, and `n_packets +=` what is left in the second format.
abbrev pub one_and : Result ℕ → Result ℕ
one_and (ok n) = ok (suc n)
one_and (err e) = err e

-- "figure n packets given the 2 formats"
unfoldable pub n_packets_for : ℕ → Result ℕ
n_packets_for n_missing =
    let first_format = words_per_full_packet - words_for_command_n_missing_transaction in
    if ltb first_format n_missing
    then one_and
        (ceildiv (n_missing - first_format) (words_per_full_packet - words_for_command_transaction))
    else ok 1

-- The header words of a request, and the numbers that it has room for.
abbrev pub request_header : ℕ → ℕ → Bool → List ℕ
request_header transaction_id n_packets true =
    command_start_missing_seq ∷ transaction_id ∷ n_packets ∷ []
request_header transaction_id n_packets false = command_missing_seq ∷ transaction_id ∷ []

abbrev pub request_room : Bool → ℕ
request_room true = words_per_full_packet - words_for_command_n_missing_transaction
request_room false = words_per_full_packet_with_sequence_num

-- `length_left_in_packet` after the header was counted off, which moves the offset.
abbrev pub request_stride : Bool → ℕ
request_stride true = words_per_full_packet - words_for_command_n_missing_transaction
request_stride false = words_per_full_packet - words_for_command_transaction

-- The loop over `n_packets`. A count of numbers below zero would be refused by `struct`.
unfoldable pub send_requests :
    Placement → ℕ → List ℕ → ℕ → ℕ → Bool → ℕ → Send SdpMessage (Unit {0})
send_requests p transaction_id missing n_packets zero first seq_num_offset = pure tt
send_requests p transaction_id missing n_packets (suc rounds) first seq_num_offset =
    if ltb (length missing) seq_num_offset then lift (err struct_error) else do
      let size = min (request_room first) (length missing - seq_num_offset)
      header ← lift (pack_words (request_header transaction_id n_packets first))
      numbers ← lift (pack_words (slice missing seq_num_offset (seq_num_offset + size)))
      send (make_data_out_message p (header ++ numbers))
      send_requests p transaction_id missing n_packets rounds false
          (seq_num_offset + request_stride first)

-- What is done with the missing numbers; the count of them was added to `lost_seq_nums` before.
unfoldable pub request_missing : Placement → ℕ → List ℕ → Send SdpMessage Bool
request_missing p transaction_id [] = pure true
request_missing p transaction_id (n ∷ ns) = do
  n_packets ← lift (n_packets_for (length (n ∷ ns)))
  send_requests p transaction_id (n ∷ ns) n_packets n_packets true 0
  pure false

-- `_determine_and_retransmit_missing_seq_nums`: the new `lost_seq_nums`, and whether all is there.
unfoldable pub determine_and_retransmit_missing_seq_nums :
    Gatherer → Placement → ℕ → List ℕ → List ℕ → Send SdpMessage (List ℕ × Bool)
determine_and_retransmit_missing_seq_nums g p transaction_id seq_nums lost_seq_nums = do
  complete ← request_missing p transaction_id (missing_seq_nums g seq_nums)
  pure (lost_seq_nums ++ length (missing_seq_nums g seq_nums) ∷ [], complete)
