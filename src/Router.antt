-- ===== src/Router.antt =====
-- Merging the bit fields of the cores into the routing table of a chip (spinn_front_end_common/
-- interface/interface_functions/host_bit_field_router_compressor.py). `Bitfields` are read from the
-- cores, `Order` numbers them, and `Merge` searches how many of them the table can take in.
pub mod Bitfields
pub mod Order
pub mod Merge
pub mod Compress
pub mod Bits
pub mod Converted
pub mod Table
pub mod Numbered
pub mod Bijection
pub mod Flagged
pub mod Marked
pub mod Consistent
mod Tests
