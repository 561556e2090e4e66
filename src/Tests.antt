-- ===== src/Tests.antt =====
-- The code at concrete inputs.
pub mod Auth
pub mod Redact
pub mod Resolve
pub mod WsFrame
pub mod Sse
pub mod Net
pub mod Http
pub mod Store
pub mod Api
pub mod Login
pub mod Users
pub mod LoginCrypto
pub mod Vault
pub mod Execute
pub mod Environments
pub mod Realtime
pub mod Migrations
pub mod Exchange
pub mod Script
