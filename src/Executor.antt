-- ===== src/Executor.antt =====
-- internal/executor
pub mod Redact
pub mod Resolve
pub mod WsFrame
pub mod Sse
pub mod Target
pub mod Http
