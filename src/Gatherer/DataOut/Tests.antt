-- ===== src/Gatherer/DataOut/Tests.antt =====
-- Runs of the data-out protocol for a block of two packets, and the theorems at it.
use spi_nnfront_end_common.Common.{
  ◌++◌, length, replicate, ◌≡◌, refl, true, false, none, some, List, [], ◌∷◌, ok, arith,
}
use spi_nnfront_end_common.Common.Words.{Bytes, pack_words, unpack_word}
use spi_nnfront_end_common.Gatherer.{Gatherer, Placement, Event, packet, timeout, ceildiv}
use spi_nnfront_end_common.Gatherer.DataOut.Requests.{
  request_missing, determine_and_retransmit_missing_seq_nums, missing_seq_nums, missing_from,
  n_packets_for, send_requests, make_data_out_message,
}
use spi_nnfront_end_common.Gatherer.DataOut.Receive.{
  get_data, transfer, receive_data, on_event, on_packet, on_timeout, process_data, at_end,
  ask_again, clear_transfer,
}
use spi_nnfront_end_common.Gatherer.DataOut.Output.{
  start_reception, calculate_max_seq_num, check, write_payload, write_into_view, offset_of,
}
use spi_nnfront_end_common.Common.Numbers.{add, member}
use spi_nnfront_end_common.Gatherer.DataOut.Spliced.{bare_end, core_packet}
use spi_nnfront_end_common.Gatherer.DataOut.Integrity.{
  Delivers, nothing, with_bytes, end_only, lost, get_data-exact,
}
use spi_nnfront_end_common.Gatherer.DataOut.Requested.{Requested, request_missing-Requested}

abbrev monitor_core : Placement
monitor_core = record { x = 1; y = 1; p = 4 }

abbrev gatherer : Gatherer
gatherer = record {
  known_placement = some (record { x = 0; y = 0; p = 3 });
  transaction_id = 5;
  coord_word = none;
  max_seq_num = 0;
  missing_seq_nums_data_in = [];
  output = none;
}

-- One full packet, and eight bytes.
abbrev block : Bytes
block = replicate 264 7 ++ 1 ∷ 2 ∷ 3 ∷ 4 ∷ 5 ∷ 6 ∷ 7 ∷ 8 ∷ []

-- The flagged packet 1 while packet 0 is lost, which is asked for, again after a timeout, and sent; the
-- core ends that with the number after 0.
abbrev events : List Event
events =
    packet (core_packet block 9 1 true)
    ∷ timeout
    ∷ packet (core_packet block 9 0 false)
    ∷ packet (bare_end 9 1)
    ∷ []

events-Delivers : Delivers 9 block [] events
unfolding member
events-Delivers = with_bytes [] 1 true _ (omega arith) (
    lost (1 ∷ []) _ (
      with_bytes (1 ∷ []) 0 false _ (omega arith)
        (end_only (0 ∷ 1 ∷ []) 1 [] (omega arith) refl (nothing (1 ∷ 0 ∷ 1 ∷ [])))))

run_returns : (get_data gatherer 8 monitor_core 4096 (length block) events).1 ≡ ok (some block)
unfolding get_data transfer receive_data on_event on_packet on_timeout process_data at_end ask_again
    clear_transfer start_reception calculate_max_seq_num check write_payload write_into_view
    offset_of determine_and_retransmit_missing_seq_nums missing_seq_nums missing_from
    request_missing n_packets_for send_requests make_data_out_message ceildiv pack_words unpack_word
    add member
run_returns = refl

get_data-exact_example : block ≡ block
get_data-exact_example =
    get_data-exact gatherer 8 monitor_core 4096 block events block events-Delivers run_returns

request_missing-Requested_example :
    Requested monitor_core 9 (4 ∷ 7 ∷ []) (request_missing monitor_core 9 (4 ∷ 7 ∷ [])).0
    × ((request_missing monitor_core 9 (4 ∷ 7 ∷ [])).1 ≡ ok false)
request_missing-Requested_example =
    request_missing-Requested monitor_core 9 4 (7 ∷ []) (omega arith)
      (omega arith, (omega arith, tt)) (omega arith)
