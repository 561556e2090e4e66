-- ===== src/Script.antt =====
-- internal/script: what needs no script engine.
pub mod Uuid
pub mod Registry
pub mod Url
pub mod Encoding
