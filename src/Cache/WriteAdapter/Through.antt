-- ===== src/Cache/WriteAdapter/Through.antt =====
-- `WriteThroughCache` of crates/oxistore-cache/src/write_adapter.rs.
pub mod Coherence
use oxistore.Common.{ℕ, Option, none, some, ok}
use oxistore.Common.Bytes.{Bytes}
use oxistore.Core.Store.{Exec, KvStore, pure, ◌>>=◌, ◌>>◌}
use oxistore.Cache.Trait.{Cache}

pub record WriteThroughCache (S C : Type 0) : Type 0 where
  pub store : S
  pub cache : C

module _ {S T C : Type 0} (kv : KvStore S T) (policy : Cache Bytes Bytes C) where
  abbrev pub on_store : {A : Type 0} → Exec S A → Exec (WriteThroughCache S C) A
  on_store m w = ((m w.store).0, record w { store = (m w.store).1 })

  abbrev pub on_cache : {A : Type 0} → (C → A × C) → Exec (WriteThroughCache S C) A
  on_cache f w = (ok (f w.cache).0, record w { cache = (f w.cache).1 })

  -- The arms of the `match` on what the store has.
  abbrev pub populate : ℕ → Bytes → Option Bytes → Exec (WriteThroughCache S C) (Option Bytes)
  populate now key none = pure none
  populate now key (some v) = do on_cache (policy.put now key v); pure (some v)

  abbrev pub on_hit_or : ℕ → Bytes → Option Bytes → Exec (WriteThroughCache S C) (Option Bytes)
  on_hit_or now key (some v) = pure (some v)
  on_hit_or now key none = do found ← on_store (kv.get key); populate now key found

  unfoldable pub get : ℕ → Bytes → Exec (WriteThroughCache S C) (Option Bytes)
  get now key = do hit ← on_cache (policy.get now key); on_hit_or now key hit

  unfoldable pub put : ℕ → Bytes → Bytes → Exec (WriteThroughCache S C) (Unit {0})
  put now key value = do on_store (kv.put key value); on_cache (policy.put now key value); pure tt

  unfoldable pub remove : Bytes → Exec (WriteThroughCache S C) (Unit {0})
  remove key = do on_cache (policy.remove key); on_store (kv.delete key); pure tt
