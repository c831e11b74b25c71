-- ===== src/Daemon.antt =====
-- The entry point of the daemon: daemon/cmd/lara-nuxd/main.go.
pub mod Startup
pub mod Socket
pub mod Wiring
pub mod Kept
pub mod Observed
pub mod Failing
pub mod Unique
