-- ===== src/Server.antt =====
-- The relay server (server/*.go).
pub mod Token
pub mod Sessions
pub mod Config
pub mod Relay
pub mod Access
