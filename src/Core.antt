-- ===== src/Core.antt =====
-- crates/oxistore-core/src/lib.rs: the key-value store interface and the methods that it provides.
pub mod PrefixBound
pub mod Store
pub mod Contract
pub mod Calls
pub mod Scans
pub mod Transactions
