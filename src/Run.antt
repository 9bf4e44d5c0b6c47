-- ===== src/Run.antt =====
-- The time steps of a run (spinn_front_end_common/interface/abstract_spinnaker_base.py and
-- spinn_front_end_common/data/fec_data_writer.py).
pub mod Steps
pub mod Total
pub mod Sdram
pub mod Totals
pub mod Longest
pub mod Within
mod Tests
