-- ===== src/Cache/WriteAdapter/Back/Puts.antt =====
-- `put` of a `WriteBackCache`, which flushes before the cache may drop an entry.
use oxistore.Common.{
  ℕ, ◌≤◌, ◌<◌, ◌≡◌, ◌≢◌, refl, sym, subst, ◌∙◌, true, some, ok, if_pos, if_neg, arith, Bool-cases,
  inl, inr, ◌⊎◌, ltb,
}
use oxistore.Common.Bytes.{Bytes, bytes_dec}
use oxistore.Core.Store.{KvStore}
use oxistore.Core.Contract.{Stores}
use oxistore.Cache.Trait.{Cache}
use oxistore.Cache.Contract.{IsCache, IsRetaining}
use oxistore.Core.Calls.{Values, update}
use oxistore.Cache.WriteAdapter.Shows.{after_put}
use oxistore.Cache.WriteAdapter.Back.Flushing.{Held, IsBuffered, flush-stores}
use oxistore.Cache.WriteAdapter.Back.{
  WriteBackCache, is_dirty, mark, flush_if_eviction_imminent, put,
}
use oxistore.Cache.WriteAdapter.Back.Dirty.{is_dirty-mark_self, is_dirty-mark_ne}

module _ {S T C : Type 0} (kv : KvStore S T) (policy : Cache Bytes Bytes C) (stores : Stores kv)
    (caches : IsCache policy) (retains : IsRetaining policy) where
  abbrev Buffered : ℕ → WriteBackCache S C → Values → Type 0
  Buffered = IsBuffered kv policy stores caches retains

  abbrev Kept : ℕ → C → Values → Bytes → Type 0
  Kept = Held kv policy stores caches retains

  later_Kept :
      (t now : ℕ) (c : C) (f : Values) (q : Bytes) → t ≤ now → Kept t c f q → Kept now c f q
  later_Kept t now c f q h (v, e, there) = (v, e, λ later h'. there later (omega arith))

  -- The state before the cache takes the new value: the store has every other value, or the cache
  -- keeps every other entry.
  abbrev Ready : ℕ → Bytes → Bytes → WriteBackCache S C → Values → Type 0
  Ready now k v w f =
      ((q : Bytes) → stores.value w.store q ≡ f q)
      ⊎ ((later : ℕ) (q : Bytes)
          → k ≢ q
          → policy.peek later q (policy.put now k v w.cache).1 ≡ policy.peek later q w.cache)

  -- What `flush_if_eviction_imminent` gives.
  prepared :
      (t now : ℕ) (k v : Bytes) (w : WriteBackCache S C) (f : Values)
      → t ≤ now
      → Buffered t w f
      → (s : S) × (flush_if_eviction_imminent kv policy now k w ≡ (ok tt, record w { store = s }))
        × Buffered t (record w { store = s }) f
        × Ready now k v (record w { store = s }) f
  unfolding flush_if_eviction_imminent
  prepared t now k v w f h b = elim (Bool-cases (policy.contains_key now k w.cache)) [
    | inl known ↦ (
      w.store,
      rw (known) refl,
      b,
      inr (λ later q ne. retains.put_update now later k q v w.cache ne known),
    )
    | inr unknown ↦ elim (Bool-cases (ltb (policy.len w.cache) (policy.cap w.cache))) [
      | inl room ↦
          let less : policy.len w.cache < policy.cap w.cache = ground arith in
          (
            w.store,
            rw (unknown, room) refl,
            b,
            inr (λ later q ne. retains.put_room now later k q v w.cache ne less),
          )
      | inr full ↦
          let (s, runs, all) = flush-stores kv policy stores caches retains t now w f h b in
          (
            s,
            rw (unknown, full) runs,
            record { cached = b.cached; stored = λ q e. all q; held = λ q e. inl (all q) },
            inl all,
          )
    ]
  ]

  put-exact :
      (now : ℕ) (k v : Bytes) (w : WriteBackCache S C) (s : S)
      → flush_if_eviction_imminent kv policy now k w ≡ (ok tt, record w { store = s })
      → put kv policy now k v w ≡ (
        ok tt,
        record { store = s; cache = (policy.put now k v w.cache).1; dirty = mark k w.dirty },
      )
  unfolding put
  put-exact now k v w s e = rw (e) refl

  pub put-simulates :
      (t now : ℕ) (k v : Bytes) (w : WriteBackCache S C) (f : Values)
      → t ≤ now
      → Buffered t w f
      → ((put kv policy now k v w).0 ≡ ok tt)
        × Buffered now (put kv policy now k v w).1 (update k (some v) f)
  put-simulates t now k v w f h b0 =
      let (s, runs, b, ready) = prepared t now k v w f h b0 in
      rw (put-exact now k v w s runs) (
        refl,
        record {
          cached = after_put policy caches t now k v w.cache f h b.cached;
          stored = λ q clean. elim (bytes_dec k q) [
            | yes same ↦
                let marked : is_dirty q (mark k w.dirty) ≡ true =
                  rw (← same) (is_dirty-mark_self k w.dirty) in
                absurd (ground arith)
            | no ne ↦
                b.stored q (sym (is_dirty-mark_ne k q w.dirty ne) ∙ clean)
                ∙ sym (if_neg (bytes_dec k q) ne _ _)
          ];
          held = λ q marked. elim (bytes_dec k q) [
            | yes same ↦ inr (
              v,
              if_pos (bytes_dec k q) same _ _,
              λ later h'.
                  subst (λ x. policy.peek later x (policy.put now k v w.cache).1 ≡ some v) same
                    (retains.put_takes now later k v w.cache),
            )
            | no ne ↦
                let f' : update k (some v) f q ≡ f q = if_neg (bytes_dec k q) ne _ _ in
                elim ready [
                  | inl all ↦ inl (all q ∙ sym f')
                  | inr keeps ↦ elim (b.held q (sym (is_dirty-mark_ne k q w.dirty ne) ∙ marked)) [
                    | inl e ↦ inl (e ∙ sym f')
                    | inr (u, is_u, there) ↦
                        inr (u, f' ∙ is_u, λ later h'. keeps later q ne ∙ there later (omega arith))
                  ]
                ]
          ];
        },
      )
