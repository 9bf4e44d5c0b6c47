-- ===== src/Dsg.antt =====
-- The data specifications of the cores (spinn_front_end_common/interface/ds) and how they are loaded
-- (spinn_front_end_common/interface/interface_functions/load_data_specification.py). `Database` is
-- what the database keeps for one core, `Generator` writes it and `Load` puts it on the machine.
pub mod Database
pub mod Generator
pub mod Writing
pub mod Malloc
pub mod Load
pub mod Table
pub mod Fits
pub mod Layout
pub mod Rows
pub mod Loaded
mod Tests
