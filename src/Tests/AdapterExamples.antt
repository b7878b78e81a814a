-- ===== src/Tests/AdapterExamples.antt =====
-- The adapters over an `LruCache` of two entries and a store that is a function.
use oxistore.Common.{◌+◌, ◌%◌, ◌^◌, ℕ, ◌≡◌, ◌≤◌, refl, none, some, List, [], ◌∷◌, ok, false, arith}
use oxistore.Common.Assoc.{lookup}
use oxistore.Common.Bytes.{Bytes, bytes_dec}
use oxistore.Core.Store.{KvStore, KvTxn, raise, read_only}
use oxistore.Core.Contract.{Stores}
use oxistore.Cache.Entry.{CacheEntry}
use oxistore.Cache.LinkedMap.{LinkedHashMap}
use oxistore.Cache.Trait.{Cache}
use oxistore.Cache.Contract.{IsCache, IsRetaining}
use oxistore.Cache.Lru.{LruCache, new, as_cache, peek}
use oxistore.Cache.Lru.Interface.{lru-IsCache, lru-IsRetaining}
use oxistore.Core.Calls.{Call, read, write, remove, flush, Values, update, run, Ascending, replay}
use oxistore.Cache.WriteAdapter.Through.{WriteThroughCache}
use oxistore.Cache.WriteAdapter.Through.Coherence
use oxistore.Cache.WriteAdapter.Through.Coherence.{IsCoherent, run-WriteThroughCache_refines}
use oxistore.Cache.WriteAdapter.Back
use oxistore.Cache.WriteAdapter.Back.{WriteBackCache, is_dirty}
use oxistore.Cache.WriteAdapter.Back.Flushing.{IsBuffered}
use oxistore.Cache.WriteAdapter.Back.Puts.{put-simulates}
use oxistore.Cache.WriteAdapter.Back.Coherence as BackCoherence
use oxistore.Cache.WriteAdapter.Back.Coherence.{run-WriteBackCache_refines, flush-stores_all}
use oxistore.Cache.WriteAdapter.ReadThrough.{CacheableKvStore, fetch, get, put}
use oxistore.Cache.WriteAdapter.ReadThrough.Coherence as ReadCoherence
use oxistore.Cache.WriteAdapter.ReadThrough.Coherence.{IsFaithful, run-CacheableKvStore_refines}
use oxistore.Cache.WriteAdapter.ReadThrough.Races.{interleaved, get_stale}
use oxistore.Cache.Runs as Runs
use oxistore.Cache.Runs.{Op, op_get, op_put, op_resize}
use oxistore.Cache.Stats as Stats
use oxistore.Cache.Stats.{StatsCache}
use oxistore.Cache.Stats.Counting.{replies, count_hits, count_misses, run-StatsCache}
use oxistore.Tests.ListMap.{ListMap, list_map, list_map-IsLinked}

abbrev no_txn : KvTxn Values
no_txn = record {
  get = λ k. raise read_only;
  put = λ k v. raise read_only;
  delete = λ k. raise read_only;
}

abbrev functions : KvStore Values Values
functions = record {
  txn = no_txn;
  get = λ k f. (ok (f k), f);
  put = λ k v f. (ok tt, update k (some v) f);
  delete = λ k f. (ok tt, update k none f);
  range = λ lo hi. raise read_only;
  iter = raise read_only;
  transaction = raise read_only;
  commit = λ t. raise read_only;
  rollback = λ t. raise read_only;
  flush = λ f. (ok tt, f);
}

abbrev functions-Stores : Stores functions
functions-Stores = record {
  value = λ f. f;
  get_result = λ f k. refl;
  value-get = λ f k q. refl;
  put_result = λ f k v. refl;
  value-put = λ f k v q. refl;
  delete_result = λ f k. refl;
  value-delete = λ f k q. refl;
  flush_result = λ f. refl;
  value-flush = λ f q. refl;
}

abbrev Map : Type 0
Map = ListMap bytes_dec (CacheEntry Bytes)

abbrev maps : LinkedHashMap Bytes (CacheEntry Bytes) Map
maps = list_map bytes_dec

abbrev lru : Cache Bytes Bytes (LruCache Map)
lru = as_cache maps

lru_keeps : IsCache lru
lru_keeps = lru-IsCache bytes_dec maps (list_map-IsLinked bytes_dec)

lru_takes : IsRetaining lru
lru_takes = lru-IsRetaining bytes_dec maps (list_map-IsLinked bytes_dec)

abbrev a : Bytes
a = 97 ∷ []

abbrev b : Bytes
b = 98 ∷ []

abbrev c : Bytes
c = 99 ∷ []

-- more keys than the cache has room for
abbrev calls : List (ℕ × Call)
calls =
    (1, write a b)
    ∷ (2, write b c)
    ∷ (3, write c a)
    ∷ (4, read a)
    ∷ (5, remove b)
    ∷ (6, flush)
    ∷ (6, read b)
    ∷ []

calls-Ascending : Ascending 0 calls
calls-Ascending = omega arith

abbrev start : Values
start k = none

nothing_shown :
    (later : ℕ) (q u : Bytes)
    → 0 ≤ later
    → lru.peek later q (new maps 2) ≡ some u
    → start q ≡ some u
unfolding new peek lookup
nothing_shown later q u h e = absurd (ground arith)

abbrev through : WriteThroughCache Values (LruCache Map)
through = record { store = start; cache = new maps 2 }

run-WriteThroughCache_refines_example :
    (run (Coherence.step functions lru) calls through).0 ≡ replay calls start
run-WriteThroughCache_refines_example =
    run-WriteThroughCache_refines functions lru functions-Stores lru_keeps calls 0 through start
      calls-Ascending (record { stored = λ q. refl; cached = nothing_shown })

abbrev back : WriteBackCache Values (LruCache Map)
back = record { store = start; cache = new maps 2; dirty = [] }

back-IsBuffered : IsBuffered functions lru functions-Stores lru_keeps lru_takes 0 back start
unfolding is_dirty
back-IsBuffered = record {
  cached = nothing_shown;
  stored = λ q e. refl;
  held = λ q e. absurd (ground arith);
}

run-WriteBackCache_refines_example :
    (run (BackCoherence.step functions lru) calls back).0 ≡ replay calls start
run-WriteBackCache_refines_example =
    run-WriteBackCache_refines functions lru functions-Stores lru_keeps lru_takes calls 0 back start
      calls-Ascending back-IsBuffered

-- A key that only the cache has.
abbrev pending : WriteBackCache Values (LruCache Map)
pending = (run (BackCoherence.step functions lru) ((1, write a b) ∷ []) back).1

abbrev pending_values : Values
pending_values = update a (some b) start

pending-IsBuffered :
    IsBuffered functions lru functions-Stores lru_keeps lru_takes 1 pending pending_values
unfolding run BackCoherence.step
pending-IsBuffered =
    (put-simulates functions lru functions-Stores lru_keeps lru_takes 0 1 a b back start
      (omega arith) back-IsBuffered).1

flush-stores_all_example :
    ((Back.flush functions lru 2 pending).0 ≡ ok tt)
    × ((q : Bytes) → (Back.flush functions lru 2 pending).1.store q ≡ pending_values q)
    × ((Back.flush functions lru 2 pending).1.dirty ≡ [])
flush-stores_all_example =
    flush-stores_all functions lru functions-Stores lru_keeps lru_takes 1 2 pending pending_values
      (omega arith) pending-IsBuffered

abbrev around : Values → CacheableKvStore Values (LruCache Map)
around f = record { store = f; cache = new maps 2; poisoned = false }

run-CacheableKvStore_refines_example :
    (run (ReadCoherence.step functions lru "cache lock poisoned") calls (around start)).0
    ≡ replay calls start
run-CacheableKvStore_refines_example =
    run-CacheableKvStore_refines functions lru "cache lock poisoned" functions-Stores lru_keeps
      calls 0 (around start) start calls-Ascending
      (record { healthy = refl; stored = λ q. refl; cached = nothing_shown })

-- A store with one value.
abbrev one : Values
one = update a (some b) start

abbrev reader : CacheableKvStore Values (LruCache Map)
reader =
    interleaved functions lru "cache lock poisoned" functions-Stores lru_keeps lru_takes 1 a b c
      (around one)

get_stale_example :
    ((fetch functions lru "cache lock poisoned" a (around one)).0 ≡ ok (some b))
    × ((put functions lru "cache lock poisoned" a c
          (fetch functions lru "cache lock poisoned" a (around one)).1).0
        ≡ ok tt)
    × (reader.store a ≡ some c)
    × ((get functions lru "cache lock poisoned" 5 a reader).0 ≡ ok (some b))
unfolding bytes_dec
get_stale_example =
    get_stale functions lru "cache lock poisoned" functions-Stores lru_keeps lru_takes 1 5 a b c
      (around one) refl refl

abbrev lru_calls : List (ℕ × Op Bytes Bytes)
lru_calls = (1, op_put a b) ∷ (2, op_get a) ∷ (3, op_get b) ∷ (4, op_resize 1) ∷ (5, op_get a) ∷ []

abbrev counted : StatsCache (LruCache Map)
counted = record { inner = new maps 2; stats = record { hits = 0; misses = 0 } }

run-StatsCache_example :
    (replies (Stats.as_cache lru) lru_calls counted ≡ replies lru lru_calls (new maps 2))
    × ((Runs.run (Stats.as_cache lru) lru_calls counted).inner
        ≡ Runs.run lru lru_calls (new maps 2))
    × ((Runs.run (Stats.as_cache lru) lru_calls counted).stats.hits
        ≡ (0 + count_hits lru lru_calls (new maps 2)) % 2 ^ 64)
    × ((Runs.run (Stats.as_cache lru) lru_calls counted).stats.misses
        ≡ (0 + count_misses lru lru_calls (new maps 2)) % 2 ^ 64)
    × ((Stats.as_cache lru).values 6 (Runs.run (Stats.as_cache lru) lru_calls counted) ≡ [])
run-StatsCache_example = run-StatsCache lru lru_calls counted 6 (omega arith) (omega arith)
