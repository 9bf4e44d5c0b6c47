-- ===== src/Monitor.antt =====
-- The extra monitors' dropped packet reinjection: the messages that control it and the status that
-- it reports (spinn_front_end_common/utilities/scp/reinjector_control_process.py, the messages in
-- spinn_front_end_common/utilities/utility_objs/extra_monitor_scp_messages and
-- spinn_front_end_common/utilities/utility_objs/reinjection_status.py).
pub mod Status
pub mod Control
pub mod Config
pub mod Reader
pub mod Regions
pub mod Entries
pub mod Written
pub mod Board
pub mod Reported
pub mod Timeouts
mod Tests
