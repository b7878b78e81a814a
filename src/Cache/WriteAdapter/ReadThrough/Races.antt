-- ===== src/Cache/WriteAdapter/ReadThrough/Races.antt =====
-- Two threads on a `CacheableKvStore`: a read that is between the store and the insertion while a write
-- runs.
use Prim.Native.String.{String}
use oxistore.Common.{ℕ, ◌≡◌, refl, ◌∙◌, ap, false, some, ok, if_pos}
use oxistore.Common.Bytes.{Bytes, bytes_dec}
use oxistore.Core.Store.{KvStore}
use oxistore.Core.Contract.{Stores}
use oxistore.Cache.Trait.{Cache}
use oxistore.Cache.Contract.{IsCache, IsRetaining}
use oxistore.Cache.WriteAdapter.ReadThrough.{CacheableKvStore, fetch, populate, get, put}
use oxistore.Cache.WriteAdapter.ReadThrough.Coherence.{
  fetch-exact, populate-exact, put-exact, get_hit,
}

module _ {S T C : Type 0} (kv : KvStore S T) (policy : Cache Bytes Bytes C) (text : String)
    (stores : Stores kv) (caches : IsCache policy) (retains : IsRetaining policy) where
  -- A reader that has missed the cache fetches the value of a key; a writer puts another value and
  -- removes the key from the cache; the reader inserts what it fetched.
  abbrev pub interleaved : ℕ → Bytes → Bytes → Bytes → CacheableKvStore S C → CacheableKvStore S C
  interleaved now k old new w =
      let w1 = (fetch kv policy text k w).1 in
      let w2 = (put kv policy text k new w1).1 in (populate kv policy text now k (some old) w2).1

  interleaved-exact :
      (now : ℕ) (k old new : Bytes) (w : CacheableKvStore S C)
      → w.poisoned ≡ false
      → interleaved now k old new w ≡ (record w {
        store = (kv.put k new (kv.get k w.store).1).1;
        cache = (policy.put now k old (policy.remove k w.cache).1).1;
      })
  interleaved-exact now k old new w h =
      let w1 : CacheableKvStore S C = record w { store = (kv.get k w.store).1 } in
      let w2 : CacheableKvStore S C = record w1 {
        store = (kv.put k new w1.store).1;
        cache = (policy.remove k w.cache).1;
      } in
      ap (λ r. (populate kv policy text now k (some old) (put kv policy text k new r.1).1).1)
        (fetch-exact kv policy text stores caches k w)
      ∙ ap (λ r. (populate kv policy text now k (some old) r.1).1)
          (put-exact kv policy text stores caches k new w1 h)
      ∙ ap (λ r. r.1) (populate-exact kv policy text stores caches now k old w2 h)

  -- Over a store that keeps its contract and a cache that takes every value and drops live entries only
  -- when a `put` of a new key finds it full, with the lock in order: if a write of a key runs between
  -- a reader's fetch of the old value and its insertion, the write succeeds and the store has the new
  -- value, but a `get` of the key made next, at any time, is answered with the old one.
  pub get_stale :
      (now later : ℕ) (k old new : Bytes) (w : CacheableKvStore S C)
      → w.poisoned ≡ false
      → stores.value w.store k ≡ some old
      → ((fetch kv policy text k w).0 ≡ ok (some old))
        × ((put kv policy text k new (fetch kv policy text k w).1).0 ≡ ok tt)
        × (stores.value (interleaved now k old new w).store k ≡ some new)
        × ((get kv policy text later k (interleaved now k old new w)).0 ≡ ok (some old))
  get_stale now later k old new w h e =
      let s1 : S = (kv.get k w.store).1 in
      let w1 : CacheableKvStore S C = record w { store = s1 } in
      let c2 : C = (policy.remove k w.cache).1 in
      let w3 : CacheableKvStore S C = record w {
        store = (kv.put k new s1).1;
        cache = (policy.put now k old c2).1;
      } in
      let ends : interleaved now k old new w ≡ w3 = interleaved-exact now k old new w h in
      let hit : (policy.get later k w3.cache).0 ≡ some old =
        retains.get_result later k w3.cache ∙ retains.put_takes now later k old c2 in
      (
        ap (λ r. r.0) (fetch-exact kv policy text stores caches k w) ∙ ap ok e,
        ap (λ r. (put kv policy text k new r.1).0) (fetch-exact kv policy text stores caches k w)
            ∙ ap (λ r. r.0) (put-exact kv policy text stores caches k new w1 h),
        ap (λ x. stores.value x.store k) ends
            ∙ stores.value-put s1 k new k
            ∙ if_pos (bytes_dec k k) refl _ _,
        ap (λ x. (get kv policy text later k x).0) ends
            ∙ ap (λ r. r.0) (get_hit kv policy text stores caches later k old w3 h hit),
      )
