-- ===== src/Transport.antt =====
-- The package transport: the store of TLS sessions (Session) and the construction of the HTTP/3
-- transport over it (Setup).
pub mod Session
pub mod SessionLaws
pub mod Setup
pub mod SetupLaws
mod Witnesses
