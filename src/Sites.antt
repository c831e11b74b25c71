-- ===== src/Sites.antt =====
-- The registry of sites: daemon/internal/app/site_registry.go.
pub mod Record
pub mod Domain
pub mod Name
pub mod Registry
