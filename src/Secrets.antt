-- ===== src/Secrets.antt =====
-- internal/secret: the encryption of secrets and the handler that stores them.
pub mod Crypto
pub mod Handler
pub mod Laws
pub mod Witnesses
