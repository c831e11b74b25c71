-- ===== src/Fpm.antt =====
-- The manager of PHP-FPM: daemon/internal/host/ubuntu/php/manager.go.
pub mod Runtime
pub mod Manager
pub mod Rollback
