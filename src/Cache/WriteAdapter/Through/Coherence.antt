-- ===== src/Cache/WriteAdapter/Through/Coherence.antt =====
-- `WriteThroughCache` answers as a map does.
use oxistore.Common.{
  ℕ, ◌≤◌, ◌≡◌, refl, sym, ◌∙◌, ap, none, some, List, ok, ite, arith, Option-cases, inl, inr,
}
use oxistore.Common.Bytes.{Bytes, bytes_dec}
use oxistore.Core.Store.{KvStore}
use oxistore.Core.Contract.{Stores}
use oxistore.Cache.Trait.{Cache}
use oxistore.Cache.Contract.{IsCache}
use oxistore.Core.Calls.{
  Call, read, write, remove, flush, Reply, Values, update, without_value, run, Ascending, replay,
}
use oxistore.Cache.WriteAdapter.Shows.{Shows, update_same, after_get, after_put, after_remove}
use oxistore.Core.Calls.Refinement.{Simulates, run-replay}
use oxistore.Cache.WriteAdapter.Through
use oxistore.Cache.WriteAdapter.Through.{WriteThroughCache, get, put}

module _ {S T C : Type 0} (kv : KvStore S T) (policy : Cache Bytes Bytes C) where
  -- A `WriteThroughCache` has no `flush`, so the call `flush` stands for none of its methods.
  unfoldable pub step : ℕ → Call → WriteThroughCache S C → Reply × WriteThroughCache S C
  step now (read k) = get kv policy now k
  step now (write k v) = λ w. without_value (put kv policy now k v w)
  step now (remove k) = λ w. without_value (Through.remove kv policy k w)
  step now flush = λ w. (ok none, w)

module _ {S T C : Type 0} (kv : KvStore S T) (policy : Cache Bytes Bytes C) (stores : Stores kv)
    (caches : IsCache policy) where
  -- The store has the values, and from time `t` on the cache shows no other ones.
  pub record IsCoherent (t : ℕ) (w : WriteThroughCache S C) (f : Values) : Type 0 where
    pub stored : (q : Bytes) → stores.value w.store q ≡ f q
    pub cached : Shows policy t w.cache f

  get_hit :
      (now : ℕ) (k v : Bytes) (w : WriteThroughCache S C)
      → (policy.get now k w.cache).0 ≡ some v
      → get kv policy now k w ≡ (ok (some v), record w { cache = (policy.get now k w.cache).1 })
  unfolding get
  get_hit now k v w e = rw (e) refl

  get_found :
      (now : ℕ) (k v : Bytes) (w : WriteThroughCache S C)
      → (policy.get now k w.cache).0 ≡ none
      → stores.value w.store k ≡ some v
      → get kv policy now k w ≡ (
        ok (some v),
        record {
          store = (kv.get k w.store).1;
          cache = (policy.put now k v (policy.get now k w.cache).1).1;
        },
      )
  unfolding get
  get_found now k v w e found =
      let r : (kv.get k w.store).0 ≡ ok (some v) = stores.get_result w.store k ∙ ap ok found in
      rw (e, r) refl

  get_missing :
      (now : ℕ) (k : Bytes) (w : WriteThroughCache S C)
      → (policy.get now k w.cache).0 ≡ none
      → stores.value w.store k ≡ none
      → get kv policy now k w
        ≡ (ok none, record { store = (kv.get k w.store).1; cache = (policy.get now k w.cache).1 })
  unfolding get
  get_missing now k w e missing =
      let r : (kv.get k w.store).0 ≡ ok none = stores.get_result w.store k ∙ ap ok missing in
      rw (e, r) refl

  get-simulates :
      (t now : ℕ) (k : Bytes) (w : WriteThroughCache S C) (f : Values)
      → t ≤ now
      → IsCoherent t w f
      → ((get kv policy now k w).0 ≡ ok (f k)) × IsCoherent now (get kv policy now k w).1 f
  get-simulates t now k w f h co = elim (Option-cases (policy.get now k w.cache).0) [
    | inr (v, hit) ↦ rw (get_hit now k v w hit) (
      ap ok (sym (co.cached now k v h (caches.get_hit now k v w.cache hit))),
      record { stored = co.stored; cached = after_get policy caches t now k w.cache f h co.cached },
    )
    | inl miss ↦ elim (Option-cases (stores.value w.store k)) [
      | inr (v, found) ↦
          let is_v : f k ≡ some v = sym (co.stored k) ∙ found in
          rw (get_found now k v w miss found) (
            ap ok (sym is_v),
            record {
              stored = λ q. stores.value-get w.store k q ∙ co.stored q;
              cached = λ later q u h' e.
                  sym (update_same k v f q is_v)
                  ∙ after_put policy caches now now k v (policy.get now k w.cache).1 f (omega arith)
                      (after_get policy caches t now k w.cache f h co.cached) later q u h' e;
            },
          )
      | inl missing ↦ rw (get_missing now k w miss missing) (
        ap ok (sym missing ∙ co.stored k),
        record {
          stored = λ q. stores.value-get w.store k q ∙ co.stored q;
          cached = after_get policy caches t now k w.cache f h co.cached;
        },
      )
    ]
  ]

  put-simulates :
      (t now : ℕ) (k v : Bytes) (w : WriteThroughCache S C) (f : Values)
      → t ≤ now
      → IsCoherent t w f
      → ((put kv policy now k v w).0 ≡ ok tt)
        × IsCoherent now (put kv policy now k v w).1 (update k (some v) f)
  unfolding put
  put-simulates t now k v w f h co = rw (stores.put_result w.store k v) (
    refl,
    record {
      stored = λ q.
          stores.value-put w.store k v q ∙ ap (λ o. ite (bytes_dec k q) (some v) o) (co.stored q);
      cached = after_put policy caches t now k v w.cache f h co.cached;
    },
  )

  remove-simulates :
      (t now : ℕ) (k : Bytes) (w : WriteThroughCache S C) (f : Values)
      → t ≤ now
      → IsCoherent t w f
      → ((Through.remove kv policy k w).0 ≡ ok tt)
        × IsCoherent now (Through.remove kv policy k w).1 (update k none f)
  unfolding Through.remove
  remove-simulates t now k w f h co = rw (stores.delete_result w.store k) (
    refl,
    record {
      stored =
          λ q. stores.value-delete w.store k q ∙ ap (λ o. ite (bytes_dec k q) none o) (co.stored q);
      cached = after_remove policy caches t now k none w.cache f h co.cached;
    },
  )

  step-Simulates : Simulates IsCoherent (step kv policy)
  unfolding step
  step-Simulates t now (read k) w f h co = get-simulates t now k w f h co
  step-Simulates t now (write k v) w f h co =
      let (r, next) = put-simulates t now k v w f h co in (ground arith, next)
  step-Simulates t now (remove k) w f h co =
      let (r, next) = remove-simulates t now k w f h co in (ground arith, next)
  step-Simulates t now flush w f h co = (
    refl,
    record { stored = co.stored; cached = λ later q u h' e. co.cached later q u (omega arith) e },
  )

  -- A write-through cache over any cache that may drop entries but changes no value, and any store that
  -- keeps its contract: from a coherent state, every sequence of calls at times that do not decrease
  -- is answered, without an error, as a function from keys to values answers it.
  pub run-WriteThroughCache_refines :
      (calls : List (ℕ × Call)) (t : ℕ) (w : WriteThroughCache S C) (f : Values)
      → Ascending t calls
      → IsCoherent t w f
      → (run (step kv policy) calls w).0 ≡ replay calls f
  run-WriteThroughCache_refines = run-replay IsCoherent (step kv policy) step-Simulates
