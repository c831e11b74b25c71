-- ===== src/Onboarding.antt =====
-- Runtimes from package bundles: daemon/internal/app/runtime_onboarding.go and runtime_catalog.go.
pub mod Service
pub mod Catalog
pub mod Registered
