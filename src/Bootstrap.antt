-- ===== src/Bootstrap.antt =====
-- The bootstrap of the daemon: daemon/internal/app/bootstrap_service.go.
pub mod Paths
pub mod Release
pub mod Report
pub mod Preflight
