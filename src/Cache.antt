-- ===== src/Cache.antt =====
-- crates/oxistore-cache/src: the cache policies behind the `Cache` trait, and what wraps them.
pub mod Entry
pub mod LinkedMap
pub mod Trait
pub mod Runs
pub mod Contract
pub mod WriteAdapter
pub mod Stats
pub mod Lfu
pub mod Sketch
pub mod Lru
pub mod Arc
