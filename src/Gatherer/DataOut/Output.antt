-- ===== src/Gatherer/DataOut/Output.antt =====
-- The output buffer of a data-out transfer (spinn_front_end_common/utility_models/
-- data_speed_up_packet_gatherer_machine_vertex.py).
use spi_nnfront_end_common.Common.{
  ℕ, ◌+◌, ◌-◌, ◌*◌, ◌/◌, ◌%◌, ◌^◌, Bool, false, not, ◌&&◌, Option, none, some, List, [], ◌++◌,
  Result, ok, err, value_error, spinn_front_end_exception, ltb, ◌==◌, replicate, if◌then◌else◌,
  length, slice, take, drop, raise_if, ◌>>=◌, ◌>>◌,
}
use spi_nnfront_end_common.Common.Words.{Bytes}
use spi_nnfront_end_common.Gatherer.{
  Gatherer, ceildiv, bytes_per_word, words_per_full_packet_with_sequence_num,
  bytes_for_seq_and_transaction_id,
}

unfoldable pub calculate_max_seq_num : Option Bytes → Result ℕ
calculate_max_seq_num none = err spinn_front_end_exception
calculate_max_seq_num (some output) =
    ceildiv (length output) (words_per_full_packet_with_sequence_num * bytes_per_word)

-- `__offset`
unfoldable pub offset_of : ℕ → ℕ
offset_of seq_num = seq_num * words_per_full_packet_with_sequence_num * bytes_per_word

-- A slice assignment to a `memoryview` is refused where the lengths differ.
unfoldable pub write_into_view : Option Bytes → ℕ → ℕ → Bytes → ℕ → ℕ → Result Bytes
write_into_view none view_start view_end bytes data_start data_end = err spinn_front_end_exception
write_into_view (some output) view_start view_end bytes data_start data_end = do
  raise_if (ltb (length output) view_end) value_error
  raise_if (not (length (slice bytes data_start data_end) == view_end - view_start)) value_error
  ok (take view_start output ++ slice bytes data_start data_end ++ drop view_end output)

-- `__check`: all packets, and the one that ends the stream, have been received.
unfoldable pub check : Option Bytes → List ℕ → Result Bool
check output seq_nums = do
  max_needed ← calculate_max_seq_num output
  raise_if (ltb (max_needed + 1) (length seq_nums)) value_error
  ok (length seq_nums == max_needed + 1)

-- The variables of `_receive_data`, and the object's `_output` and `_max_seq_num` in `gatherer`.
pub record Reception : Type 0 where
  pub gatherer : Gatherer
  pub seq_nums : List ℕ
  pub lost_seq_nums : List ℕ
  pub timeoutcount : ℕ
  pub complete : Bool

abbrev pub seq_num_of : ℕ → ℕ
seq_num_of word = word % 2 ^ 31

-- The top bit of a 32-bit word.
abbrev pub is_end_of_stream : ℕ → Bool
is_end_of_stream word = (word / 2 ^ 31) % 2 == 1

-- The output with the payload of packet `seq_num`; a packet that only ends the stream has none.
unfoldable pub write_payload : Gatherer → Bytes → ℕ → Bool → Result Gatherer
write_payload g bytes seq_num ends =
    if ends && (length bytes == bytes_for_seq_and_transaction_id) then ok g else do
      output ←
          write_into_view g.output (offset_of seq_num)
            (offset_of seq_num + length bytes - bytes_for_seq_and_transaction_id) bytes
            bytes_for_seq_and_transaction_id (length bytes)
      ok (record g { output = some output })

-- The state in which `get_data` starts to receive.
unfoldable pub start_reception : Gatherer → ℕ → Result Reception
start_reception g length_in_bytes = do
  n ← calculate_max_seq_num (some (replicate length_in_bytes 0))
  ok (record {
    gatherer = record g { output = some (replicate length_in_bytes 0); max_seq_num = n };
    seq_nums = [];
    lost_seq_nums = [];
    timeoutcount = 0;
    complete = false;
  })
