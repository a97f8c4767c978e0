-- ===== src/Client.antt =====
-- The desktop client, client-app.
pub mod Proxy
