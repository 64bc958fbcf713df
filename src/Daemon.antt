-- ===== src/Daemon.antt =====
-- The daemons that the protocol steers: src/applications/mpt-daemons.
pub mod Text
pub mod Options
pub mod Common
pub mod Sender
pub mod Receiver
pub mod Broker
pub mod Inspection
pub mod Requests
pub mod Crashes
pub mod Failures
pub mod Node
