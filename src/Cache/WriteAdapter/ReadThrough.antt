-- ===== src/Cache/WriteAdapter/ReadThrough.antt =====
-- `CacheableKvStore` of crates/oxistore-cache/src/write_adapter.rs. The lock is held only around the
-- calls of the cache, so `get` is three steps between which other calls can run: the look at the
-- cache, the read of the store, and the insertion.
pub mod Coherence
pub mod Races
pub mod Bypass
use Prim.Native.String.{String}
use oxistore.Common.{ℕ, List, Bool, true, false, Option, none, some, ok, err, if◌then◌else◌}
use oxistore.Common.Bytes.{Bytes}
use oxistore.Core.Store.{Exec, RangeItem, KvStore, other, pure, ◌>>=◌, ◌>>◌}
use oxistore.Cache.Trait.{Cache}

pub record CacheableKvStore (S C : Type 0) : Type 0 where
  pub store : S
  pub cache : C
  pub poisoned : Bool

module _ {S T C : Type 0} (kv : KvStore S T) (policy : Cache Bytes Bytes C) (text : String) where
  abbrev pub on_store : {A : Type 0} → Exec S A → Exec (CacheableKvStore S C) A
  on_store m w = ((m w.store).0, record w { store = (m w.store).1 })

  -- A call of the cache under its lock. `text` stands for the message about a poisoned lock.
  abbrev pub locked : {A : Type 0} → (C → A × C) → Exec (CacheableKvStore S C) A
  locked f w =
      if w.poisoned
      then (err (other text), w)
      else (ok (f w.cache).0, record w { cache = (f w.cache).1 })

  unfoldable pub look : ℕ → Bytes → Exec (CacheableKvStore S C) (Option Bytes)
  look now key = locked (policy.get now key)

  unfoldable pub fetch : Bytes → Exec (CacheableKvStore S C) (Option Bytes)
  fetch key = on_store (kv.get key)

  unfoldable pub populate : ℕ → Bytes → Option Bytes → Exec (CacheableKvStore S C) (Option Bytes)
  populate now key none = pure none
  populate now key (some v) = do locked (policy.put now key v); pure (some v)

  abbrev pub on_hit_or : ℕ → Bytes → Option Bytes → Exec (CacheableKvStore S C) (Option Bytes)
  on_hit_or now key (some v) = pure (some v)
  on_hit_or now key none = do from_store ← fetch key; populate now key from_store

  unfoldable pub get : ℕ → Bytes → Exec (CacheableKvStore S C) (Option Bytes)
  get now key = do cached ← look now key; on_hit_or now key cached

  unfoldable pub put : Bytes → Bytes → Exec (CacheableKvStore S C) (Unit {0})
  put key value = do on_store (kv.put key value); locked (policy.remove key); pure tt

  unfoldable pub flush : Exec (CacheableKvStore S C) (Unit {0})
  flush = on_store kv.flush

  unfoldable pub delete : Bytes → Exec (CacheableKvStore S C) (Unit {0})
  delete key = do on_store (kv.delete key); locked (policy.remove key); pure tt

  -- The other methods of `impl KvStore` are those of the store: its transactions do not look at the
  -- cache, and leave it as it is.
  unfoldable pub range : Bytes → Bytes → Exec (CacheableKvStore S C) (List RangeItem)
  range lo hi = on_store (kv.range lo hi)

  unfoldable pub iter : Exec (CacheableKvStore S C) (List RangeItem)
  iter = on_store kv.iter

  unfoldable pub transaction : Exec (CacheableKvStore S C) T
  transaction = on_store kv.transaction

  unfoldable pub as_store : ℕ → KvStore (CacheableKvStore S C) T
  as_store now = record {
    txn = kv.txn;
    get = get now;
    put = put;
    delete = delete;
    range = range;
    iter = iter;
    transaction = transaction;
    commit = λ t. on_store (kv.commit t);
    rollback = λ t. on_store (kv.rollback t);
    flush = flush;
  }
