-- ===== src/Cache/Stats.antt =====
-- `CacheStats` and `StatsCache` of crates/oxistore-cache/src/stats.rs. The counters are atomic 64-bit
-- integers that wrap; `hit_rate` is a float, and not modelled.
pub mod Counting
use oxistore.Common.{ℕ, ◌+◌, ◌%◌, ◌^◌, Option, is_some, if◌then◌else◌}
use oxistore.Common.Bytes.{Bytes}
use oxistore.Cache.Trait.{Cache, default_values}

pub record CacheStats : Type 0 where
  pub hits : ℕ
  pub misses : ℕ

unfoldable pub new : CacheStats
new = record { hits = 0; misses = 0 }

unfoldable pub record_hit : CacheStats → CacheStats
record_hit stats = record stats { hits = (stats.hits + 1) % 2 ^ 64 }

unfoldable pub record_miss : CacheStats → CacheStats
record_miss stats = record stats { misses = (stats.misses + 1) % 2 ^ 64 }

unfoldable pub reset : CacheStats → CacheStats
reset stats = new

pub record StatsCache (C : Type 0) : Type 0 where
  pub inner : C
  pub stats : CacheStats

module _ {C : Type 0} (cache : Cache Bytes Bytes C) where
  unfoldable pub get : ℕ → Bytes → StatsCache C → Option Bytes × StatsCache C
  get now key c =
      let result = cache.get now key c.inner in
      (
        result.0,
        record {
          inner = result.1;
          stats = if is_some result.0 then record_hit c.stats else record_miss c.stats;
        },
      )

  abbrev pub on_inner : {A : Type 0} → (C → A × C) → StatsCache C → A × StatsCache C
  on_inner f c = ((f c.inner).0, record c { inner = (f c.inner).1 })

  -- `impl Cache for StatsCache`, which does not override `values`.
  unfoldable pub as_cache : Cache Bytes Bytes (StatsCache C)
  as_cache = record {
    get = get;
    put = λ now k v. on_inner (cache.put now k v);
    put_with_ttl = λ now k v ttl. on_inner (cache.put_with_ttl now k v ttl);
    len = λ c. cache.len c.inner;
    cap = λ c. cache.cap c.inner;
    remove = λ k. on_inner (cache.remove k);
    clear = λ c. record c { inner = cache.clear c.inner };
    peek = λ now k c. cache.peek now k c.inner;
    contains_key = λ now k c. cache.contains_key now k c.inner;
    resize = λ n c. record c { inner = cache.resize n c.inner };
    values = default_values;
  }
