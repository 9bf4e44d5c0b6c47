-- ===== src/Buffers.antt =====
-- The buffers of keys that the host sends to the machine (spinn_front_end_common/interface/
-- buffer_management). `Region` and `Sent` are the two storage objects; the other modules prove what
-- they show.
pub mod Region
pub mod Sent
pub mod Manager
pub mod Numbered
pub mod Window
pub mod Queue
pub mod Pending
pub mod Taking
pub mod Takes
pub mod Keys
pub mod Filling
pub mod Filled
mod Tests
