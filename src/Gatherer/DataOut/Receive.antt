-- ===== src/Gatherer/DataOut/Receive.antt =====
-- How packets of a data-out transfer are taken in (spinn_front_end_common/utility_models/
-- data_speed_up_packet_gatherer_machine_vertex.py).
use spi_nnfront_end_common.Common.{
  ℕ, ◌+◌, ◌%◌, Bool, true, false, Option, none, some, List, [], ◌∷◌, err, value_error,
  spinn_front_end_exception, ltb, ◌==◌, if◌then◌else◌, raise_if,
}
use spi_nnfront_end_common.Common.Words.{Bytes, pack_words, unpack_word}
use spi_nnfront_end_common.Common.Numbers.{add}
use spi_nnfront_end_common.Common.Sends.{Send, pure, lift, send, ◌>>=◌, ◌>>◌}
use spi_nnfront_end_common.Gatherer.{
  Gatherer, Placement, SdpMessage, Event, packet, timeout, timeout_retry_limit, transaction_id_cap,
}
use spi_nnfront_end_common.Gatherer.DataOut.Output.{
  check, Reception, seq_num_of, is_end_of_stream, write_payload, start_reception,
}
use spi_nnfront_end_common.Gatherer.DataOut.Requests.{
  command_start_sending, command_clear, make_data_out_message,
  determine_and_retransmit_missing_seq_nums,
}

module _ (p : Placement) (transaction_id : ℕ) where
  -- The request for what is missing, and its effect on the variables.
  unfoldable pub ask_again : Reception → Send SdpMessage Reception
  ask_again st = do
    asked ←
        determine_and_retransmit_missing_seq_nums st.gatherer p transaction_id st.seq_nums
          st.lost_seq_nums
    pure (record st { lost_seq_nums = asked.0; complete = asked.1 })

  -- The end of `_process_data`: a packet that ends the stream calls for a check.
  unfoldable pub at_end : Bool → Reception → Send SdpMessage Reception
  at_end false st = pure st
  at_end true st = do
    all_there ← lift (check st.gatherer.output st.seq_nums)
    if all_there then pure (record st { complete = true }) else ask_again st

  unfoldable pub process_data : Bytes → Reception → Send SdpMessage Reception
  process_data bytes st = do
    word ← lift (unpack_word bytes 0)
    lift (raise_if (ltb st.gatherer.max_seq_num (seq_num_of word)) value_error)
    g ← lift (write_payload st.gatherer bytes (seq_num_of word) (is_end_of_stream word))
    at_end (is_end_of_stream word)
        (record st { gatherer = g; seq_nums = add (seq_num_of word) st.seq_nums })

  -- A packet of another transfer is ignored.
  unfoldable pub on_packet : Bytes → Reception → Send SdpMessage Reception
  on_packet bytes st = do
    response_transaction_id ← lift (unpack_word bytes 4)
    if transaction_id == response_transaction_id
        then process_data bytes (record st { timeoutcount = 0 })
        else pure st

  unfoldable pub on_timeout : Reception → Send SdpMessage Reception
  on_timeout st =
      if ltb timeout_retry_limit st.timeoutcount
      then lift (err spinn_front_end_exception)
      else ask_again (record st { timeoutcount = st.timeoutcount + 1 })

  unfoldable pub on_event : Event → Reception → Send SdpMessage Reception
  on_event (packet bytes) st = on_packet bytes st
  on_event timeout st = on_timeout st

  -- The loop `while not finished`, one event a round; it waits when the events run out.
  unfoldable pub receive_data : List Event → Reception → Send SdpMessage Reception
  receive_data [] st = pure st
  receive_data (e ∷ es) st = elim st.complete [
    | true ↦ pure st
    | false ↦ on_event e st >>= receive_data es
  ]

-- The end of `get_data`: the transfer is cleared and the output returned.
unfoldable pub clear_transfer : Placement → ℕ → Reception → Send SdpMessage (Option Bytes)
clear_transfer p transaction_id st = do
  bytes ← lift (pack_words (command_clear ∷ transaction_id ∷ []))
  send (make_data_out_message p bytes)
  pure st.gatherer.output

-- Where the data is asked for and taken in; `none` is a run that still waits for a packet.
unfoldable pub transfer :
    Gatherer → ℕ → Placement → ℕ → ℕ → List Event → Send SdpMessage (Option Bytes)
transfer g transaction_id p memory_address length_in_bytes events = do
  bytes ←
      lift (
        pack_words (command_start_sending ∷ transaction_id ∷ memory_address ∷ length_in_bytes ∷ []))
  send (make_data_out_message p bytes)
  st ← lift (start_reception g length_in_bytes)
  st' ← receive_data p transaction_id events st
  if st'.complete then clear_transfer p transaction_id st' else pure none

-- `get_data`, with the id that the extra monitor last used.
unfoldable pub get_data :
    Gatherer → ℕ → Placement → ℕ → ℕ → List Event → Send SdpMessage (Option Bytes)
get_data g last_transaction_id p memory_address length_in_bytes events =
    if length_in_bytes == 0
    then pure (some [])
    else transfer g ((last_transaction_id + 1) % (transaction_id_cap + 1)) p memory_address
        length_in_bytes events
