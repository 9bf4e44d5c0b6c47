-- ===== src/Gatherer/DataIn.antt =====
-- Data in: the host writes a block of data to the SDRAM of a chip through the gatherer.
-- `Packets` makes and reads single messages, `Stream` sends them, `Exchange` is the loop with the
-- board; the other modules prove what they show.
pub mod Packets
pub mod Stream
pub mod Exchange
pub mod Coverage
pub mod Safety
pub mod Endings
pub mod Reports
pub mod Recovered
mod Tests
