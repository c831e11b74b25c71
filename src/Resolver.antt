-- ===== src/Resolver.antt =====
-- The manager of systemd-resolved: daemon/internal/host/ubuntu/resolved/manager.go.
pub mod Stub
pub mod Manager
pub mod Ownership
pub mod Rollback
