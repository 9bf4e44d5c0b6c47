-- ===== src/Injection.antt =====
-- The source that injects keys at given times (spinn_front_end_common/utility_models/
-- reverse_ip_tag_multicast_source_machine_vertex.py). `Source` fills the region of keys to send,
-- `Rates` is how many keys it plans for.
pub mod Source
pub mod Rates
pub mod Masks
pub mod Masked
pub mod Filled
pub mod Fresh
pub mod Counted
pub mod Planned
pub mod Covered
pub mod Loaded
mod Tests
