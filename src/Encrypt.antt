-- ===== src/Encrypt.antt =====
-- crates/oxistore-encrypt.
pub mod Errors
pub mod Keys
pub mod Aead
pub mod Cell
pub mod Keyring
pub mod Envelope
pub mod Store
pub mod Decorator
