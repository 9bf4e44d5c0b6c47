-- ===== src/Gatherer/DataIn/Stream.antt =====
-- The messages of the data-in protocol as they are sent (spinn_front_end_common/utility_models/
-- data_speed_up_packet_gatherer_machine_vertex.py).
use spi_nnfront_end_common.Common.{ℕ, zero, suc, ◌+◌, none, some, List, [], ◌∷◌}
use spi_nnfront_end_common.Common.Words.{Bytes}
use spi_nnfront_end_common.Common.Sends.{Send, pure, lift, send, ◌>>=◌, ◌>>◌}
use spi_nnfront_end_common.Gatherer.{Gatherer, SdpMessage}
use spi_nnfront_end_common.Gatherer.DataIn.Packets.{
  make_data_in_stream_message, location_message, tell_message,
}

unfoldable pub send_location : Gatherer → ℕ → Send SdpMessage Unit
send_location g start_address = do message ← lift (location_message g start_address); send message

unfoldable pub send_tell_flag : Gatherer → Send SdpMessage Unit
send_tell_flag g = do message ← lift (tell_message g); send message

-- The loop of `_send_all_data_based_packets`: `rounds` packets from `seq_num` on.
unfoldable pub send_packets : Gatherer → Bytes → ℕ → ℕ → ℕ → Send SdpMessage Unit
send_packets g data_to_write zero seq_num position_in_data = pure tt
send_packets g data_to_write (suc rounds) seq_num position_in_data = do
  made ← lift (make_data_in_stream_message g data_to_write seq_num (some position_in_data))
  send made.0
  send_packets g data_to_write rounds (suc seq_num) (position_in_data + made.1)

unfoldable pub send_all_data_based_packets : Gatherer → Bytes → ℕ → Send SdpMessage Unit
send_all_data_based_packets g data_to_write start_address = do
  send_location g start_address
  send_packets g data_to_write g.max_seq_num 0 0
  send_tell_flag g

-- The loop of `_outgoing_retransmit_missing_seq_nums` over the sorted numbers.
unfoldable pub resend_packets : Gatherer → Bytes → List ℕ → Send SdpMessage Unit
resend_packets g data_to_write [] = pure tt
resend_packets g data_to_write (seq_num ∷ missing) = do
  made ← lift (make_data_in_stream_message g data_to_write seq_num none)
  send made.0
  resend_packets g data_to_write missing

unfoldable pub outgoing_retransmit_missing_seq_nums :
    Gatherer → Bytes → List ℕ → Send SdpMessage Unit
outgoing_retransmit_missing_seq_nums g data_to_write missing = do
  resend_packets g data_to_write missing
  send_tell_flag g
