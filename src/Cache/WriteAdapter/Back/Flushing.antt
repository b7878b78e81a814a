-- ===== src/Cache/WriteAdapter/Back/Flushing.antt =====
-- What a flush of a `WriteBackCache` leaves in the store.
use oxistore.Common.{
  ℕ, ◌≤◌, ◌≡◌, refl, sym, ◌∙◌, ap, true, false, none, some, List, [], ◌∷◌, ok, if_pos, if_neg,
  arith, Option-cases, Bool-cases, inl, inr, ◌⊎◌,
}
use oxistore.Common.Bytes.{Bytes, bytes_dec}
use oxistore.Core.Store.{KvStore}
use oxistore.Core.Contract.{Stores}
use oxistore.Cache.Trait.{Cache}
use oxistore.Cache.Contract.{IsCache, IsRetaining}
use oxistore.Core.Calls.{Values}
use oxistore.Cache.WriteAdapter.Back.{WriteBackCache, is_dirty, flush_keys}
use oxistore.Cache.WriteAdapter.Back.Dirty.{is_dirty_head, is_dirty-nil}

module _ {S T C : Type 0} (kv : KvStore S T) (policy : Cache Bytes Bytes C) (stores : Stores kv)
    (caches : IsCache policy) (retains : IsRetaining policy) where
  -- The cache holds the value of the key from time `t` on.
  abbrev pub Held : ℕ → C → Values → Bytes → Type 0
  Held t c f q =
      (v : Bytes) × (f q ≡ some v) × ((later : ℕ) → t ≤ later → policy.peek later q c ≡ some v)

  -- From time `t` on the cache shows no other values than the function; the store has the value of
  -- every key, except of dirty ones that the cache holds.
  pub record IsBuffered (t : ℕ) (w : WriteBackCache S C) (f : Values) : Type 0 where
    pub cached :
        (later : ℕ) (q v : Bytes) → t ≤ later → policy.peek later q w.cache ≡ some v → f q ≡ some v
    pub stored : (q : Bytes) → is_dirty q w.dirty ≡ false → stores.value w.store q ≡ f q
    pub held :
        (q : Bytes)
        → is_dirty q w.dirty ≡ true
        → (stores.value w.store q ≡ f q) ⊎ Held t w.cache f q

  -- The loop of a flush: afterwards the store has every value that it had, or that is written.
  flush_keys-stores :
      (t now : ℕ) (keys : List Bytes) (w : WriteBackCache S C) (f : Values)
      → t ≤ now
      → ((later : ℕ) (q v : Bytes)
          → t ≤ later
          → policy.peek later q w.cache ≡ some v
          → f q ≡ some v)
      → ((q : Bytes)
          → (stores.value w.store q ≡ f q) ⊎ ((is_dirty q keys ≡ true) × Held t w.cache f q))
      → (s : S) × (flush_keys kv policy now keys w ≡ (ok tt, record w { store = s }))
        × ((q : Bytes) → stores.value s q ≡ f q)
  unfolding flush_keys
  flush_keys-stores t now [] w f h cached have = (
    w.store,
    refl,
    λ q. elim (have q) [ inl e ↦ e | inr (e, held) ↦ absurd (ground (arith, is_dirty-nil q)) ],
  )
  flush_keys-stores t now (j ∷ keys) w f h cached have =
      elim (Option-cases (policy.peek now j w.cache)) [
        | inl none_there ↦
            let (s, runs, all) = flush_keys-stores t now keys w f h cached (λ q. elim (have q) [
              | inl e ↦ inl e
              | inr (e, (v, is_v, there)) ↦ elim (bytes_dec j q) [
                | yes same ↦
                    let gone : policy.peek now q w.cache ≡ none = rw (← same) none_there in
                    absurd (ground (arith, there now h))
                | no ne ↦ inr (is_dirty_head j q keys ne e, (v, is_v, there))
              ]
            ]) in
            (s, rw (none_there) runs, all)
        | inr (u, is_u) ↦
            let w1 : WriteBackCache S C = record w { store = (kv.put j u w.store).1 } in
            let (s, runs, all) = flush_keys-stores t now keys w1 f h cached (λ q.
              elim (bytes_dec j q) [
                | yes same ↦ inl (
                    stores.value-put w.store j u q
                    ∙ if_pos (bytes_dec j q) same _ _
                    ∙ sym (cached now j u h is_u)
                    ∙ ap f same)
                | no ne ↦
                    let kept : stores.value (kv.put j u w.store).1 q ≡ stores.value w.store q =
                      stores.value-put w.store j u q ∙ if_neg (bytes_dec j q) ne _ _ in
                    elim (have q) [
                      | inl e ↦ inl (kept ∙ e)
                      | inr (e, held) ↦ inr (is_dirty_head j q keys ne e, held)
                    ]
              ]) in
            (s, rw (is_u, stores.put_result w.store j u) runs, all)
      ]

  -- After the loop the store has every value.
  pub flush-stores :
      (t now : ℕ) (w : WriteBackCache S C) (f : Values)
      → t ≤ now
      → IsBuffered t w f
      → (s : S) × (flush_keys kv policy now w.dirty w ≡ (ok tt, record w { store = s }))
        × ((q : Bytes) → stores.value s q ≡ f q)
  flush-stores t now w f h b = flush_keys-stores t now w.dirty w f h b.cached (λ q.
      elim (Bool-cases (is_dirty q w.dirty)) [
        | inr clean ↦ inl (b.stored q clean)
        | inl marked ↦ elim (b.held q marked) [ inl e ↦ inl e | inr there ↦ inr (marked, there) ]
      ])
