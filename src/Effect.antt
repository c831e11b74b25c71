-- ===== src/Effect.antt =====
-- Errors, results, and actions on a world. An action returns the world also when it fails, since
-- the daemon's operations leave what they did before they failed.
pub mod Fault
pub mod Action
pub mod Atomic
pub mod Undoes
pub mod Yields
