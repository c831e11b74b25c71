-- ===== src/Assets.antt =====
-- What the daemon owns on the host: daemon/internal/app/managed_assets.go.
pub mod Manifest
pub mod Tracked
pub mod Stored
