-- ===== src/Machine.antt =====
-- The host that the managers of daemon/internal/host/ubuntu and the state store change: its files,
-- and the calls made on it, which decide what the next call does.
pub mod Files
pub mod Calls
pub mod Store
pub mod Atomically
