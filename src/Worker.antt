-- ===== src/Worker.antt =====
-- The processes of a test and the manager that watches them: src/worker.
pub mod Ipc
pub mod Snapshots
pub mod Drain
pub mod Table
pub mod Watchdog
pub mod Watching
pub mod Rounds
pub mod Stop
pub mod Clone
pub mod Cloning
pub mod Restart
pub mod Locking
