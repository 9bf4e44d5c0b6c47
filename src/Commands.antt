-- ===== src/Commands.antt =====
-- The commands that are sent to devices during a run (spinn_front_end_common/utility_models/
-- multi_cast_command.py and command_sender_machine_vertex.py). `Sender` keeps them and their
-- partitions, `Spec` writes them for the core that sends them.
pub mod Command
pub mod Sender
pub mod Spec
pub mod Partitioned
pub mod Partitions
pub mod Regions
pub mod Edges
pub mod Reader
pub mod Table
pub mod Written
mod Tests
