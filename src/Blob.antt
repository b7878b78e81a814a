-- ===== src/Blob.antt =====
-- crates/oxistore-blob.
pub mod Digest
