-- ===== src/Crypto.antt =====
-- internal/crypto: the vault of secrets.
pub mod Vault
