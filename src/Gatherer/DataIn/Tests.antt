-- ===== src/Gatherer/DataIn/Tests.antt =====
-- Runs of the data-in protocol: a block of two packets, and the theorems at it.
use mathlib.Core.List.{flatten}
use spi_nnfront_end_common.Common.{
  ◌≡◌, refl, none, some, List, [], ◌∷◌, ◌++◌, map, ok, replicate, All, arith,
}
use spi_nnfront_end_common.Common.Words.{Bytes, words_bytes, unpack_words}
use spi_nnfront_end_common.Common.Numbers.{update}
use spi_nnfront_end_common.Gatherer.{Gatherer, Placement, Event, packet, timeout, ceildiv}
use spi_nnfront_end_common.Gatherer.DataIn.Packets.{range, command_receive_finished}
use spi_nnfront_end_common.Gatherer.DataIn.Stream.{
  send_all_data_based_packets, outgoing_retransmit_missing_seq_nums,
}
use spi_nnfront_end_common.Gatherer.DataIn.Exchange.{
  waiting, on_packet, on_event, exchange, fresh, run_transfer,
}
use spi_nnfront_end_common.Gatherer.DataIn.Coverage.{
  chunk, chunk_message, tell, location, IsReady, send_all-covers, retransmit-same_packets,
}
use spi_nnfront_end_common.Gatherer.DataIn.Safety.{IsGenuine, exchange-IsGenuine}
use spi_nnfront_end_common.Gatherer.DataIn.Endings.{
  IsFinished, Confirmed, IsFailed, finished-Confirmed, timeouts-IsFailed,
}
use spi_nnfront_end_common.Gatherer.DataIn.Recovered.{
  IsFair, reported, lost, confirmed, run_transfer-IsFinished,
}
use spi_nnfront_end_common.Gatherer.DataIn.Reports.{report, report-answered}

abbrev gatherer_core : Placement
gatherer_core = record { x = 0; y = 0; p = 3 }

abbrev block : Bytes
block = replicate 264 7

abbrev gatherer : Gatherer
gatherer = record {
  known_placement = some gatherer_core;
  transaction_id = 5;
  coord_word = some 65537;
  max_seq_num = 2;
  missing_seq_nums_data_in = [];
  output = none;
}

gatherer-IsReady : IsReady gatherer gatherer_core block
unfolding ceildiv
gatherer-IsReady = record {
  placed = refl;
  word_id = omega arith;
  counted = refl;
  few = omega arith;
}

send_all-covers_example :
    (send_all_data_based_packets gatherer block 4096 ≡ (
      location gatherer gatherer_core 4096 65537
            ∷ map (chunk_message gatherer gatherer_core block) (range 0 2)
          ++ tell gatherer gatherer_core ∷ [],
      ok tt,
    ))
    × (flatten (map (chunk block) (range 0 2)) ≡ block)
send_all-covers_example =
    send_all-covers gatherer gatherer_core block gatherer-IsReady 4096 65537 refl (omega arith)
      (omega arith) (omega arith)

retransmit-same_packets_example : outgoing_retransmit_missing_seq_nums gatherer block (1 ∷ []) ≡ (
  map (chunk_message gatherer gatherer_core block) (1 ∷ []) ++ tell gatherer gatherer_core ∷ [],
  ok tt,
)
retransmit-same_packets_example =
    retransmit-same_packets gatherer gatherer_core block gatherer-IsReady (1 ∷ []) (omega arith, tt)

report-answered_example : on_packet gatherer block 4096 fresh (report gatherer (1 ∷ [])) ≡ (
  map (chunk_message gatherer gatherer_core block) (update (1 ∷ []) [])
      ++ tell gatherer gatherer_core ∷ [],
  waiting (record { missing = some []; time_out_count = 0 }),
)
report-answered_example =
    report-answered gatherer gatherer_core block 4096 gatherer-IsReady fresh (1 ∷ []) (omega arith)
      (omega arith, tt) tt (omega arith)

-- A report, a lost reply and the confirmation.
abbrev confirmation : Bytes
confirmation = words_bytes (command_receive_finished ∷ 5 ∷ [])

abbrev replies : List Event
replies = packet (report gatherer (1 ∷ [])) ∷ timeout ∷ packet confirmation ∷ []

exchange-IsGenuine_example :
    All (IsGenuine gatherer gatherer_core block 4096) (exchange gatherer block 4096 fresh replies).0
exchange-IsGenuine_example =
    exchange-IsGenuine gatherer gatherer_core block 4096 gatherer-IsReady 65537 refl (omega arith)
      (omega arith) (omega arith) fresh replies

ends_by_confirmation : IsFinished (exchange gatherer block 4096 fresh (packet confirmation ∷ [])).1
unfolding exchange on_event on_packet unpack_words
ends_by_confirmation = tt

finished-Confirmed_example : Confirmed gatherer (packet confirmation ∷ [])
finished-Confirmed_example =
    finished-Confirmed gatherer block 4096 fresh (packet confirmation ∷ []) ends_by_confirmation

timeouts-IsFailed_example :
    IsFailed (exchange gatherer block 4096 fresh (replicate 101 timeout ++ [])).1
timeouts-IsFailed_example =
    timeouts-IsFailed gatherer block 4096 101 fresh [] (omega arith) (omega arith)

-- The replies are those of a network that lost a packet and a reply.
replies-IsFair : IsFair gatherer 0 replies
unfolding unpack_words
replies-IsFair =
    reported 0 (1 ∷ []) _ (omega arith) (omega arith, tt)
      (lost 0 _ (omega arith) (confirmed 1 confirmation [] refl))

run_transfer-IsFinished_example : IsFinished (run_transfer gatherer block 4096 replies).1
run_transfer-IsFinished_example =
    run_transfer-IsFinished gatherer gatherer_core block 4096 gatherer-IsReady (omega arith) 65537
      refl (omega arith) (omega arith) (omega arith) replies replies-IsFair
