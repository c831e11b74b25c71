-- ===== src/Tests.antt =====
-- Runs of the definitions at concrete inputs.
pub mod Worlds
pub mod Registries
pub mod Runtimes
pub mod Hosts
pub mod Services
pub mod Stores
pub mod Assets
pub mod Control
pub mod Health
pub mod Onboarding
pub mod Api
pub mod Daemon
pub mod Wiring
pub mod Client
