-- ===== src/Cache/WriteAdapter/ReadThrough/Bypass.antt =====
-- A write of a `CacheableKvStore` through a transaction, which goes past the cache.
use Prim.Native.String.{String}
use oxistore.Common.{ℕ, ◌≡◌, refl, ◌∙◌, ap, false, some, [], ◌∷◌, ok, if_pos}
use oxistore.Common.Bytes.{Bytes, bytes_dec}
use oxistore.Core.Store.{KvStore, batch_write, in_txn, put_all}
use oxistore.Core.Contract.{Stores, Transacts}
use oxistore.Cache.Trait.{Cache}
use oxistore.Cache.Contract.{IsCache}
use oxistore.Cache.WriteAdapter.ReadThrough.{CacheableKvStore, get, transaction, as_store}
use oxistore.Cache.WriteAdapter.ReadThrough.Coherence.{get_hit}

module _ {S T C : Type 0} (kv : KvStore S T) (policy : Cache Bytes Bytes C) (text : String)
    (stores : Stores kv) (caches : IsCache policy) (transacts : Transacts kv) where
  batch_write-exact :
      (now : ℕ) (k v : Bytes) (w : CacheableKvStore S C)
      → batch_write (as_store kv policy text now) ((k, v) ∷ []) w ≡ (
        ok tt,
        record w { store = (kv.commit (kv.txn.put k v (transacts.begin w.store)).1 w.store).1 },
      )
  unfolding batch_write in_txn put_all as_store transaction
  batch_write-exact now k v w =
      rw
        (
          transacts.transaction_result w.store,
          transacts.put_result (transacts.begin w.store) k v,
          transacts.commit_result (kv.txn.put k v (transacts.begin w.store)).1 w.store,
        )
        refl

  -- `batch_write` of a key that the cache holds succeeds and the store has the new value, but a `get`
  -- of the key made next is answered with the value in the cache.
  get-batch_write_stale :
      (now later : ℕ) (k old new : Bytes) (w : CacheableKvStore S C)
      → w.poisoned ≡ false
      → (policy.get later k w.cache).0 ≡ some old
      → ((batch_write (as_store kv policy text now) ((k, new) ∷ []) w).0 ≡ ok tt)
        × (transacts.value (batch_write (as_store kv policy text now) ((k, new) ∷ []) w).1.store k
            ≡ some new)
        × ((get kv policy text later k
              (batch_write (as_store kv policy text now) ((k, new) ∷ []) w).1).0
            ≡ ok (some old))
  get-batch_write_stale now later k old new w h hit =
      let t : T = transacts.begin w.store in
      let w' : CacheableKvStore S C = record w {
        store = (kv.commit (kv.txn.put k new t).1 w.store).1;
      } in
      rw (batch_write-exact now k new w) (
        refl,
        transacts.value-commit (kv.txn.put k new t).1 w.store k
            ∙ transacts.view-put t k new k
            ∙ if_pos (bytes_dec k k) refl _ _,
        ap (λ r. r.0) (get_hit kv policy text stores caches later k old w' h hit),
      )
