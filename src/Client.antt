-- ===== src/Client.antt =====
-- The desktop client's side of the RPC: client/wails/bridge/daemon_client.go and client/wails/app.go.
pub mod Bridge
pub mod Served
pub mod Shell
pub mod App
pub mod Connected
