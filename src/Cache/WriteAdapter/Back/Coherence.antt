-- ===== src/Cache/WriteAdapter/Back/Coherence.antt =====
-- `WriteBackCache` answers as a map does.
use oxistore.Common.{
  ℕ, ◌≤◌, ◌≡◌, refl, sym, ◌∙◌, ap, false, none, some, List, [], ok, if_pos, if_neg, arith,
  Option-cases, Bool-cases, inl, inr,
}
use oxistore.Common.Bytes.{Bytes, bytes_dec}
use oxistore.Core.Store.{KvStore}
use oxistore.Core.Contract.{Stores}
use oxistore.Cache.Trait.{Cache}
use oxistore.Cache.Contract.{IsCache, IsRetaining}
use oxistore.Core.Calls.{
  Call, read, write, remove, flush, Reply, Values, update, without_value, run, Ascending, replay,
}
use oxistore.Cache.WriteAdapter.Shows.{after_remove}
use oxistore.Core.Calls.Refinement.{Simulates, run-replay}
use oxistore.Cache.WriteAdapter.Back
use oxistore.Cache.WriteAdapter.Back.Flushing.{IsBuffered, flush-stores}
use oxistore.Cache.WriteAdapter.Back.{
  WriteBackCache, is_dirty, mark, unmark, flush_keys, flush_if_eviction_imminent, get, put,
}
use oxistore.Cache.WriteAdapter.Back.Puts.{put-simulates}
use oxistore.Cache.WriteAdapter.Back.Dirty.{is_dirty-unmark_self, is_dirty-unmark_ne}

module _ {S T C : Type 0} (kv : KvStore S T) (policy : Cache Bytes Bytes C) where
  unfoldable pub step : ℕ → Call → WriteBackCache S C → Reply × WriteBackCache S C
  step now (read k) = get kv policy now k
  step now (write k v) = λ w. without_value (put kv policy now k v w)
  step now (remove k) = λ w. without_value (Back.remove kv policy k w)
  step now flush = λ w. without_value (Back.flush kv policy now w)

module _ {S T C : Type 0} (kv : KvStore S T) (policy : Cache Bytes Bytes C) (stores : Stores kv)
    (caches : IsCache policy) (retains : IsRetaining policy) where
  abbrev Buffered : ℕ → WriteBackCache S C → Values → Type 0
  Buffered = IsBuffered kv policy stores caches retains

  get_hit :
      (now : ℕ) (k v : Bytes) (w : WriteBackCache S C)
      → policy.peek now k w.cache ≡ some v
      → get kv policy now k w ≡ (ok (some v), record w { cache = (policy.get now k w.cache).1 })
  unfolding get
  get_hit now k v w e = rw (retains.get_result now k w.cache, e) refl

  get_miss :
      (now : ℕ) (k : Bytes) (w : WriteBackCache S C)
      → policy.peek now k w.cache ≡ none
      → get kv policy now k w ≡ (
        ok (stores.value w.store k),
        record w { store = (kv.get k w.store).1; cache = (policy.get now k w.cache).1 },
      )
  unfolding get
  get_miss now k w e = rw (retains.get_result now k w.cache, e, stores.get_result w.store k) refl

  -- A `get` of the cache and of the store keeps what they hold.
  after_get :
      (t now : ℕ) (k : Bytes) (w : WriteBackCache S C) (s : S) (f : Values)
      → t ≤ now
      → Buffered t w f
      → ((q : Bytes) → stores.value s q ≡ stores.value w.store q)
      → Buffered now (record w { store = s; cache = (policy.get now k w.cache).1 }) f
  after_get t now k w s f h b same = record {
    cached = λ later q u h' e.
        b.cached later q u (omega arith) (sym (retains.get_keeps now later k q w.cache h') ∙ e);
    stored = λ q clean. same q ∙ b.stored q clean;
    held = λ q marked. elim (b.held q marked) [
      | inl e ↦ inl (same q ∙ e)
      | inr (v, is_v, there) ↦ inr (
        v,
        is_v,
        λ later h'. retains.get_keeps now later k q w.cache h' ∙ there later (omega arith),
      )
    ];
  }

  get-simulates :
      (t now : ℕ) (k : Bytes) (w : WriteBackCache S C) (f : Values)
      → t ≤ now
      → Buffered t w f
      → ((get kv policy now k w).0 ≡ ok (f k)) × Buffered now (get kv policy now k w).1 f
  get-simulates t now k w f h b = elim (Option-cases (policy.peek now k w.cache)) [
    | inr (v, hit) ↦
        rw (get_hit now k v w hit)
          (ap ok (sym (b.cached now k v h hit)), after_get t now k w w.store f h b (λ q. refl))
    | inl miss ↦
        let value_is : stores.value w.store k ≡ f k = elim (Bool-cases (is_dirty k w.dirty)) [
          | inr clean ↦ b.stored k clean
          | inl marked ↦ elim (b.held k marked) [
            | inl e ↦ e
            | inr (v, is_v, there) ↦ absurd (ground (arith, there now h))
          ]
        ] in
        rw (get_miss now k w miss) (
          ap ok value_is,
          after_get t now k w (kv.get k w.store).1 f h b (stores.value-get w.store k),
        )
  ]

  remove-simulates :
      (t now : ℕ) (k : Bytes) (w : WriteBackCache S C) (f : Values)
      → t ≤ now
      → Buffered t w f
      → ((Back.remove kv policy k w).0 ≡ ok tt)
        × Buffered now (Back.remove kv policy k w).1 (update k none f)
  unfolding Back.remove
  remove-simulates t now k w f h b = rw (stores.delete_result w.store k) (
    refl,
    record {
      cached = after_remove policy caches t now k none w.cache f h b.cached;
      stored = λ q clean. elim (bytes_dec k q) [
        | yes same ↦
            stores.value-delete w.store k q
            ∙ if_pos (bytes_dec k q) same _ _
            ∙ sym (if_pos (bytes_dec k q) same _ _)
        | no ne ↦
            stores.value-delete w.store k q
            ∙ if_neg (bytes_dec k q) ne _ _
            ∙ b.stored q (sym (is_dirty-unmark_ne k q w.dirty ne) ∙ clean)
            ∙ sym (if_neg (bytes_dec k q) ne _ _)
      ];
      held = λ q marked. elim (bytes_dec k q) [
        | yes same ↦
            let clean : is_dirty q (unmark k w.dirty) ≡ false =
              rw (← same) (is_dirty-unmark_self k w.dirty) in
            absurd (ground arith)
        | no ne ↦
            let f' : update k none f q ≡ f q = if_neg (bytes_dec k q) ne _ _ in
            elim (b.held q (sym (is_dirty-unmark_ne k q w.dirty ne) ∙ marked)) [
              | inl e ↦
                  inl (stores.value-delete w.store k q ∙ if_neg (bytes_dec k q) ne _ _ ∙ e ∙ sym f')
              | inr (v, is_v, there) ↦ inr (
                v,
                f' ∙ is_v,
                λ later h'. retains.remove_keeps later k q w.cache ne ∙ there later (omega arith),
              )
            ]
      ];
    },
  )

  flush-simulates :
      (t now : ℕ) (w : WriteBackCache S C) (f : Values)
      → t ≤ now
      → Buffered t w f
      → ((Back.flush kv policy now w).0 ≡ ok tt) × Buffered now (Back.flush kv policy now w).1 f
  unfolding Back.flush
  flush-simulates t now w f h b =
      let (s, runs, all) = flush-stores kv policy stores caches retains t now w f h b in
      rw (runs) (
        refl,
        record {
          cached = λ later q u h' e. b.cached later q u (omega arith) e;
          stored = λ q clean. all q;
          held = λ q marked. inl (all q);
        },
      )

  step-Simulates : Simulates Buffered (step kv policy)
  unfolding step
  step-Simulates t now (read k) w f h b = get-simulates t now k w f h b
  step-Simulates t now (write k v) w f h b =
      let (r, next) = put-simulates kv policy stores caches retains t now k v w f h b in
      (ground arith, next)
  step-Simulates t now (remove k) w f h b =
      let (r, next) = remove-simulates t now k w f h b in (ground arith, next)
  step-Simulates t now flush w f h b =
      let (r, next) = flush-simulates t now w f h b in (ground arith, next)

  -- A write-back cache over a cache that takes every value and drops live entries only when a `put` of
  -- a new key finds it full, and over a store that keeps its contract: from a state in which the
  -- store has every value but those of dirty keys that the cache holds, every sequence of calls,
  -- flushes included, at times that do not decrease is answered, without an error, as a function
  -- from keys to values answers it.
  pub run-WriteBackCache_refines :
      (calls : List (ℕ × Call)) (t : ℕ) (w : WriteBackCache S C) (f : Values)
      → Ascending t calls
      → Buffered t w f
      → (run (step kv policy) calls w).0 ≡ replay calls f
  run-WriteBackCache_refines = run-replay Buffered (step kv policy) step-Simulates

  -- A write-back cache over a cache that takes every value and drops live entries only when a `put` of
  -- a new key finds it full, and over a store that keeps its contract, in a state in which the store
  -- has every value but those of dirty keys that the cache holds: `flush` succeeds, and afterwards the
  -- store alone has every value, and no key is dirty.
  pub flush-stores_all :
      (t now : ℕ) (w : WriteBackCache S C) (f : Values)
      → t ≤ now
      → Buffered t w f
      → ((Back.flush kv policy now w).0 ≡ ok tt)
        × ((q : Bytes) → stores.value (Back.flush kv policy now w).1.store q ≡ f q)
        × ((Back.flush kv policy now w).1.dirty ≡ [])
  unfolding Back.flush
  flush-stores_all t now w f h b =
      let (s, runs, all) = flush-stores kv policy stores caches retains t now w f h b in
      rw (runs) (refl, all, refl)
