-- ===== src/SystemRoutes.antt =====
-- The routes that data takes from the Ethernet chip of a board to its other chips
-- (spinn_front_end_common/interface/interface_functions/system_multicast_routing_generator.py).
pub mod Tree
pub mod Routed
pub mod Extended
pub mod Tried
pub mod Rounds
pub mod Board
pub mod Entries
pub mod Matching
pub mod Delivered
pub mod Way
pub mod Destinations
pub mod Broadcast
pub mod Reaching
mod Tests
