-- ===== src/Caddy/Manager.antt =====
-- The methods of `Manager`: daemon/internal/host/ubuntu/caddy/manager.go.
pub mod Commands
pub mod Activate
pub mod Rollback
pub mod Success
pub mod Remove
