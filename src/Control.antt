-- ===== src/Control.antt =====
-- The control of systemd services: daemon/internal/app/service_manager.go and
-- daemon/internal/host/ubuntu/systemd/manager.go.
pub mod Systemd
pub mod Manager
pub mod Commands
