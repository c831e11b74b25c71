-- ===== src/Runtimes.antt =====
-- The registry of PHP runtimes: daemon/internal/app/php_registry.go.
pub mod Version
pub mod Registry
