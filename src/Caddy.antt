-- ===== src/Caddy.antt =====
-- The manager of Caddy's configuration: daemon/internal/host/ubuntu/caddy/manager.go.
pub mod Tokens
pub mod Import
pub mod Render
pub mod Manager
