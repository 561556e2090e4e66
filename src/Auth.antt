-- ===== src/Auth.antt =====
-- internal/auth: the login rate limiter and the login handshake.
pub mod RateLimit
pub mod LoginCrypto
pub mod Password
