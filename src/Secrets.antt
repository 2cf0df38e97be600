-- ===== src/Secrets.antt =====
-- Secrets that a configuration refers to (packages/core/src/secrets).
pub mod Resolver
pub mod Keyring
pub mod Envelope
pub mod Store
pub mod Credentials
