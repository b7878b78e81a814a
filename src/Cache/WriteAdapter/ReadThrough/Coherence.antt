-- ===== src/Cache/WriteAdapter/ReadThrough/Coherence.antt =====
-- `CacheableKvStore`: its calls one after another answer as a map does; interleaved, they need not.
use Prim.Native.String.{String}
use oxistore.Common.{
  ℕ, ◌≤◌, ◌≡◌, refl, sym, ◌∙◌, ap, false, none, some, List, ok, ite, arith, Option-cases, inl, inr,
}
use oxistore.Common.Bytes.{Bytes, bytes_dec}
use oxistore.Core.Store.{KvStore}
use oxistore.Core.Contract.{Stores}
use oxistore.Cache.Trait.{Cache}
use oxistore.Cache.Contract.{IsCache}
use oxistore.Core.Calls.{
  Call, read, write, remove, flush, Reply, Values, without_value, run, Ascending, replay,
}
use oxistore.Cache.WriteAdapter.Shows.{Shows, update_same, after_get, after_put, after_remove}
use oxistore.Core.Calls.Refinement.{Simulates, run-replay}
use oxistore.Cache.WriteAdapter.ReadThrough as ReadThrough
use oxistore.Cache.WriteAdapter.ReadThrough.{
  CacheableKvStore, look, fetch, populate, get, put, delete,
}

module _ {S T C : Type 0} (kv : KvStore S T) (policy : Cache Bytes Bytes C) (text : String) where
  unfoldable pub step : ℕ → Call → CacheableKvStore S C → Reply × CacheableKvStore S C
  step now (read k) = get kv policy text now k
  step now (write k v) = λ w. without_value (put kv policy text k v w)
  step now (remove k) = λ w. without_value (delete kv policy text k w)
  step now flush = λ w. without_value (ReadThrough.flush kv policy text w)

module _ {S T C : Type 0} (kv : KvStore S T) (policy : Cache Bytes Bytes C) (text : String)
    (stores : Stores kv) (caches : IsCache policy) where
  -- The lock is in order, the store has the values, and from time `t` on the cache shows no others.
  pub record IsFaithful (t : ℕ) (w : CacheableKvStore S C) (f : Values) : Type 0 where
    pub healthy : w.poisoned ≡ false
    pub stored : (q : Bytes) → stores.value w.store q ≡ f q
    pub cached : Shows policy t w.cache f

  look-exact :
      (now : ℕ) (k : Bytes) (w : CacheableKvStore S C)
      → w.poisoned ≡ false
      → look kv policy text now k w
        ≡ (ok (policy.get now k w.cache).0, record w { cache = (policy.get now k w.cache).1 })
  unfolding look
  look-exact now k w h = rw (h) refl

  pub fetch-exact :
      (k : Bytes) (w : CacheableKvStore S C)
      → fetch kv policy text k w
        ≡ (ok (stores.value w.store k), record w { store = (kv.get k w.store).1 })
  unfolding fetch
  fetch-exact k w = rw (stores.get_result w.store k) refl

  pub populate-exact :
      (now : ℕ) (k v : Bytes) (w : CacheableKvStore S C)
      → w.poisoned ≡ false
      → populate kv policy text now k (some v) w
        ≡ (ok (some v), record w { cache = (policy.put now k v w.cache).1 })
  unfolding populate
  populate-exact now k v w h = rw (h) refl

  populate_nothing :
      (now : ℕ) (k : Bytes) (w : CacheableKvStore S C)
      → populate kv policy text now k none w ≡ (ok none, w)
  unfolding populate
  populate_nothing now k w = refl

  pub get_hit :
      (now : ℕ) (k v : Bytes) (w : CacheableKvStore S C)
      → w.poisoned ≡ false
      → (policy.get now k w.cache).0 ≡ some v
      → get kv policy text now k w
        ≡ (ok (some v), record w { cache = (policy.get now k w.cache).1 })
  unfolding get
  get_hit now k v w h e = rw (look-exact now k w h, e) refl

  get_found :
      (now : ℕ) (k v : Bytes) (w : CacheableKvStore S C)
      → w.poisoned ≡ false
      → (policy.get now k w.cache).0 ≡ none
      → stores.value w.store k ≡ some v
      → get kv policy text now k w ≡ (
        ok (some v),
        record w {
          store = (kv.get k w.store).1;
          cache = (policy.put now k v (policy.get now k w.cache).1).1;
        },
      )
  unfolding get
  get_found now k v w h e found =
      let w1 : CacheableKvStore S C = record w { cache = (policy.get now k w.cache).1 } in
      let w2 : CacheableKvStore S C = record w1 { store = (kv.get k w.store).1 } in
      rw (look-exact now k w h, e, fetch-exact k w1, found, populate-exact now k v w2 h) refl

  get_missing :
      (now : ℕ) (k : Bytes) (w : CacheableKvStore S C)
      → w.poisoned ≡ false
      → (policy.get now k w.cache).0 ≡ none
      → stores.value w.store k ≡ none
      → get kv policy text now k w
        ≡ (ok none, record w { store = (kv.get k w.store).1; cache = (policy.get now k w.cache).1 })
  unfolding get
  get_missing now k w h e missing =
      let w1 : CacheableKvStore S C = record w { cache = (policy.get now k w.cache).1 } in
      let w2 : CacheableKvStore S C = record w1 { store = (kv.get k w.store).1 } in
      rw (look-exact now k w h, e, fetch-exact k w1, missing, populate_nothing now k w2) refl

  pub put-exact :
      (k v : Bytes) (w : CacheableKvStore S C)
      → w.poisoned ≡ false
      → put kv policy text k v w
        ≡ (ok tt, record w { store = (kv.put k v w.store).1; cache = (policy.remove k w.cache).1 })
  unfolding put
  put-exact k v w h = rw (stores.put_result w.store k v, h) refl

  delete-exact :
      (k : Bytes) (w : CacheableKvStore S C)
      → w.poisoned ≡ false
      → delete kv policy text k w
        ≡ (ok tt, record w { store = (kv.delete k w.store).1; cache = (policy.remove k w.cache).1 })
  unfolding delete
  delete-exact k w h = rw (stores.delete_result w.store k, h) refl

  flush-exact :
      (w : CacheableKvStore S C)
      → ReadThrough.flush kv policy text w ≡ (ok tt, record w { store = (kv.flush w.store).1 })
  unfolding ReadThrough.flush
  flush-exact w = rw (stores.flush_result w.store) refl

  get-simulates :
      (t now : ℕ) (k : Bytes) (w : CacheableKvStore S C) (f : Values)
      → t ≤ now
      → IsFaithful t w f
      → ((get kv policy text now k w).0 ≡ ok (f k))
        × IsFaithful now (get kv policy text now k w).1 f
  get-simulates t now k w f h co = elim (Option-cases (policy.get now k w.cache).0) [
    | inr (v, hit) ↦ rw (get_hit now k v w co.healthy hit) (
      ap ok (sym (co.cached now k v h (caches.get_hit now k v w.cache hit))),
      record {
        healthy = co.healthy;
        stored = co.stored;
        cached = after_get policy caches t now k w.cache f h co.cached;
      },
    )
    | inl miss ↦ elim (Option-cases (stores.value w.store k)) [
      | inr (v, found) ↦
          let is_v : f k ≡ some v = sym (co.stored k) ∙ found in
          rw (get_found now k v w co.healthy miss found) (
            ap ok (sym is_v),
            record {
              healthy = co.healthy;
              stored = λ q. stores.value-get w.store k q ∙ co.stored q;
              cached = λ later q u h' e.
                  sym (update_same k v f q is_v)
                  ∙ after_put policy caches now now k v (policy.get now k w.cache).1 f (omega arith)
                      (after_get policy caches t now k w.cache f h co.cached) later q u h' e;
            },
          )
      | inl missing ↦ rw (get_missing now k w co.healthy miss missing) (
        ap ok (sym missing ∙ co.stored k),
        record {
          healthy = co.healthy;
          stored = λ q. stores.value-get w.store k q ∙ co.stored q;
          cached = after_get policy caches t now k w.cache f h co.cached;
        },
      )
    ]
  ]

  step-Simulates : Simulates IsFaithful (step kv policy text)
  unfolding step
  step-Simulates t now (read k) w f h co = get-simulates t now k w f h co
  step-Simulates t now (write k v) w f h co = rw (put-exact k v w co.healthy) (
    refl,
    record {
      healthy = co.healthy;
      stored = λ q.
          stores.value-put w.store k v q ∙ ap (λ o. ite (bytes_dec k q) (some v) o) (co.stored q);
      cached = after_remove policy caches t now k (some v) w.cache f h co.cached;
    },
  )
  step-Simulates t now (remove k) w f h co = rw (delete-exact k w co.healthy) (
    refl,
    record {
      healthy = co.healthy;
      stored =
          λ q. stores.value-delete w.store k q ∙ ap (λ o. ite (bytes_dec k q) none o) (co.stored q);
      cached = after_remove policy caches t now k none w.cache f h co.cached;
    },
  )
  step-Simulates t now flush w f h co = rw (flush-exact w) (
    refl,
    record {
      healthy = co.healthy;
      stored = λ q. stores.value-flush w.store q ∙ co.stored q;
      cached = λ later q u h' e. co.cached later q u (omega arith) e;
    },
  )

  -- Gets, puts, deletes and flushes of a read-through store that do not overlap, over any cache that
  -- changes no value and any store that keeps its contract, with the lock in order: from a state in
  -- which the cache shows no value but the store's, every sequence of them at times that do not
  -- decrease is answered, without an error, as a function from keys to values answers it. Transactions
  -- are not among these calls.
  pub run-CacheableKvStore_refines :
      (calls : List (ℕ × Call)) (t : ℕ) (w : CacheableKvStore S C) (f : Values)
      → Ascending t calls
      → IsFaithful t w f
      → (run (step kv policy text) calls w).0 ≡ replay calls f
  run-CacheableKvStore_refines = run-replay IsFaithful (step kv policy text) step-Simulates
