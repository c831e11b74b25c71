-- ===== src/Packages.antt =====
-- The package bundles of the host: daemon/internal/host/ubuntu/packages/manager.go.
pub mod Catalog
pub mod Manager
pub mod Installed
