-- ===== src/Health.antt =====
-- The health report: daemon/internal/app/health_service.go, with `FileSocketInspector` of
-- daemon/internal/app/orchestration.go.
pub mod Checks
pub mod Service
pub mod Ready
