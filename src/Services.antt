-- ===== src/Services.antt =====
-- The services of daemon/internal/app that call registries and managers in turn.
pub mod Interfaces
pub mod Hosting
pub mod Keeps
pub mod Retained
pub mod Activation
pub mod Switch
pub mod Management
