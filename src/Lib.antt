-- ===== src/Lib.antt =====
-- OxiStore: a family of storage crates behind small traits. crates/oxistore-core declares the
-- key-value interface `KvStore` that the database backends implement; crates/oxistore-cache has the
-- eviction policies behind the `Cache` trait, and adapters that put a cache before a store;
-- crates/oxistore-columnar evaluates predicates on batches and skips row groups by their statistics;
-- crates/oxistore-encrypt encrypts the values of a store under rotating keys; crates/oxistore-blob
-- addresses blobs by their digest.
--
-- Which file models which part:
--   Common, Common/*           shared types, lists, association lists, byte strings, results
--   Core/PrefixBound           `prefix_upper_bound` of crates/oxistore-core/src/lib.rs
--   Core/Store                 `StoreError`, `KvTxn`, `KvStore`, `KvSnapshot` and the provided methods
--   Core/Contract              the documented behaviour of the required methods, as laws
--   Core/Calls                 sequences of calls on a store, and on a function from keys to values
--   Core/Scans, Transactions   the provided methods against that contract
--   Cache/Entry, Cache/Trait   `CacheEntry` and `Cache` of crates/oxistore-cache/src/lib.rs
--   Cache/LinkedMap            `hashlink::LinkedHashMap`, a parameter with its documented laws
--   Cache/Runs                 sequences of calls on any implementation of `Cache`
--   Cache/Lru, Cache/Lru/*     `LruCache` of crates/oxistore-cache/src/lru.rs
--   Cache/Arc, Cache/Arc/*     `ArcCache` of crates/oxistore-cache/src/arc.rs
--   Cache/Lfu, Cache/Lfu/*     `LfuCache` of crates/oxistore-cache/src/lfu.rs
--   Cache/Sketch, Cache/Sketch/*  `CountMinSketch` and `Doorkeeper` of crates/oxistore-cache/src/sketch.rs
--   Cache/Stats                `StatsCache` of crates/oxistore-cache/src/stats.rs
--   Cache/Contract             what the clients of a `Cache` rely on; Cache/Lru/Interface fills it
--   Cache/WriteAdapter         the adapters of crates/oxistore-cache/src/write_adapter.rs; under it Through
--                              (`WriteThroughCache`), Back (`WriteBackCache`) and ReadThrough
--                              (`CacheableKvStore`; two of its threads that interleave in Races, and
--                              its transactions in Bypass)
--   Columnar/Ordered           the values that predicates compare
--   Columnar/Arrow             the arrow kernels, parameters with their documented results
--   Columnar/Predicate         `Predicate` of crates/oxistore-columnar/src/predicate.rs; under it Rows
--                              (`evaluate_batch`), Groups (`row_group_might_match`), and the theorems
--   Encrypt/Errors             `EncryptError` of crates/oxistore-encrypt/src/error.rs, and the random
--                              generator, a parameter
--   Encrypt/Keyring            `Keyring` of crates/oxistore-encrypt/src/keyring.rs
--   Encrypt/Envelope           `EnvelopeCipher` of crates/oxistore-encrypt/src/envelope.rs; the AEAD is a
--                              parameter
--   Encrypt/Store              `EncryptedKvEnvelope` of crates/oxistore-encrypt/src/envelope.rs; under it
--                              Rounds (`rotate_kek` round by round)
--   Encrypt/Keys, Aead, Cell   `KeyProvider`, `Aead` with its two implementations, and the cell cipher of
--                              crates/oxistore-encrypt/src/keys.rs, aead.rs and cell.rs
--   Encrypt/Decorator          `EncryptedKv` of crates/oxistore-encrypt/src/decorator.rs; under it Txn and
--                              Store (`EncryptedTxn` of txn.rs, `EncryptedSnapshot` of snapshot.rs)
--   Blob/Digest                `Digest` of crates/oxistore-blob/src/cas.rs
--   Tests/*                    instances of the parameters, and the theorems at concrete inputs
--
-- How the code is read. A method on `&mut self`, or on `&self` with interior mutability, is a
-- function that returns the new state beside its result; `?` is the bind of `Result`. An iterator
-- is the list of its items. A clock reading is an argument, in ticks. Byte strings are lists of
-- numbers below 256. A `while` loop that pops entries takes as many rounds as there are entries,
-- and the theorems about it are stated of the whole operation, so they show that this is enough;
-- the loop of `LfuCache::resize`, which need not end, takes a number of rounds and gives `none` when
-- they do not suffice.
-- Machine integers that only count entries are natural numbers, and so is the frequency of an entry of
-- `LfuCache`, a 64-bit integer that would overflow after 2^64 accesses of one key; the counters of
-- `StatsCache` and the hashes of the sketch wrap.
--
-- What is outside: the databases, the linked hash map, arrow, parquet, the ciphers and the cloud
-- services are not in the repository; what is used of them is a parameter here, or not modelled. An
-- integer column value has no width, since it is only compared; a key version is a 32-bit integer.
-- Also not modelled: default methods that only return a constant or an error, Debug and Display, the
-- async helpers.
pub mod Common
pub mod Core
pub mod Cache
pub mod Columnar
pub mod Encrypt
pub mod Blob
mod Tests
