-- ===== src/Gatherer/DataOut.antt =====
-- Data out: the host reads a block of SDRAM through the gatherer. `Requests` asks again for what is
-- missing, `Receive` takes the packets in; the other modules prove what they show.
pub mod Requests
pub mod Output
pub mod Receive
pub mod Spliced
pub mod Pieces
pub mod Sound
pub mod Integrity
pub mod Accepted
pub mod Lossless
pub mod Requested
mod Tests
