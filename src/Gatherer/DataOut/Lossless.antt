-- ===== src/Gatherer/DataOut/Lossless.antt =====
-- A data-out transfer that loses no packet ends with the block.
use spi_nnfront_end_common.Common.{ℕ, List, [], ◌∷◌, length}
use spi_nnfront_end_common.Common.Words.{Bytes, words_bytes}
use spi_nnfront_end_common.Gatherer.{Gatherer, Placement, SdpMessage}
use spi_nnfront_end_common.Gatherer.DataOut.Requests.{
  command_start_sending, command_clear, make_data_out_message,
}

abbrev zeroed : ℕ
zeroed = 0

module _ (p : Placement) (id : ℕ) (block : Bytes) (g : Gatherer) (memory_address : ℕ) where
  -- The two messages of a transfer without a loss.
  abbrev pub two_messages : List SdpMessage
  two_messages =
      make_data_out_message p
        (words_bytes (command_start_sending ∷ id ∷ memory_address ∷ length block ∷ []))
      ∷ make_data_out_message p (words_bytes (command_clear ∷ id ∷ []))
      ∷ []
