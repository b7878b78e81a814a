-- ===== src/Cache/WriteAdapter.antt =====
-- The adapters of crates/oxistore-cache/src/write_adapter.rs, each a cache before a store. The state of
-- an adapter holds the state of the store and of the cache.
pub mod Through
pub mod Back
pub mod ReadThrough
pub mod Shows
