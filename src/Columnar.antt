-- ===== src/Columnar.antt =====
-- crates/oxistore-columnar.
pub mod Ordered
pub mod Arrow
pub mod Predicate
