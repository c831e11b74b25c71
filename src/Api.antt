-- ===== src/Api.antt =====
-- The HTTP layer of the daemon: daemon/internal/api.
pub mod Response
pub mod Requests
pub mod Router
pub mod Refused
pub mod Outcomes
