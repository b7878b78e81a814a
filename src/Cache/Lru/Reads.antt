-- ===== src/Cache/Lru/Reads.antt =====
-- What can be read from an `LruCache` after an operation.
use oxistore.Common.{
  ℕ, ◌≤◌, ◌≡◌, ◌≢◌, refl, sym, ◌∙◌, ap, not, Option, none, some, List, [], ◌∷◌, length, tail, arith,
  ltb, leb, if◌then◌else◌, is_some, ◌&&◌, inl, inr, Option-cases,
}
use oxistore.Common.Assoc.{
  lookup, without, lookup-without_self, lookup-without_ne, lookup-snoc_self, lookup-snoc_ne,
  lookup-snoc_absent, lookup-tail_absent,
}
use oxistore.Cache.Entry.{CacheEntry, fresh, live_value}
use oxistore.Cache.LinkedMap.{LinkedHashMap, IsLinked}
use oxistore.Cache.Lru.{LruCache, get, put, peek}
use oxistore.Cache.Lru.Steps.{inserted, iter-insert_entry, after_get, get-exact}

module _ {K V M : Type 0} (dec : Discrete K) (ops : LinkedHashMap K (CacheEntry V) M)
    (linked : IsLinked dec ops) where
  pub peek-lookup :
      (now : ℕ) (k : K) (c : LruCache M)
      → peek ops now k c ≡ live_value now (lookup dec k (ops.iter c.map))
  unfolding peek
  peek-lookup now k c = rw (linked.get-iter k c.map)

  -- The key of the least recent entry of a full cache, if the key to come is new.
  abbrev pub victim : K → LruCache M → Option K
  victim k c =
      if not (is_some (lookup dec k (ops.iter c.map)))
        && ltb 0 c.cap
        && leb c.cap (length (ops.iter c.map))
      then (elim (ops.iter c.map) [ [] ↦ none | kv ∷ l ↦ some kv.0 ])
      else none

  lookup-tail_ne :
      (q : K) (l : List (K × CacheEntry V))
      → (elim l [ [] ↦ none | kv ∷ l' ↦ some kv.0 ]) ≢ some q
      → lookup dec q (tail l) ≡ lookup dec q l
  unfolding lookup
  lookup-tail_ne q [] h = refl
  lookup-tail_ne q ((j, v) ∷ l) h = ground arith

  lookup-inserted_self :
      (k : K) (e : CacheEntry V) (n : ℕ) (l : List (K × CacheEntry V))
      → lookup dec k (inserted dec k e n l) ≡ some e
  lookup-inserted_self k e n l = ground (
    arith,
    lookup-snoc_self dec k e l,
    lookup-snoc_absent dec k e (tail l),
    lookup-snoc_absent dec k e l,
    lookup-tail_absent dec k l,
  )

  lookup-inserted_ne :
      (k q : K) (e : CacheEntry V) (c : LruCache M)
      → k ≢ q
      → victim k c ≢ some q
      → lookup dec q (inserted dec k e c.cap (ops.iter c.map)) ≡ lookup dec q (ops.iter c.map)
  lookup-inserted_ne k q e c h kept = ground (
    arith,
    lookup-snoc_ne dec k q e (without dec k (ops.iter c.map)),
    lookup-snoc_ne dec k q e (tail (ops.iter c.map)),
    lookup-snoc_ne dec k q e (ops.iter c.map),
    lookup-without_ne dec k q (ops.iter c.map),
    lookup-tail_ne q (ops.iter c.map),
  )

  -- `put` of a key makes `peek` of that key return the value, at any later time too, for a cache
  -- of any capacity.
  pub peek-put_self :
      (now : ℕ) (k : K) (v : V) (c : LruCache M) → peek ops now k (put ops k v c).1 ≡ some v
  unfolding put
  peek-put_self now k v c =
      peek-lookup now k _
      ∙ ap (live_value now) (
          ap (lookup dec k) (iter-insert_entry dec ops linked k (fresh v) c)
          ∙ lookup-inserted_self k (fresh v) c.cap (ops.iter c.map))

  -- `put` changes what `peek` returns of no other key, except of the one that it evicts: the least
  -- recent one, and only if the key is new and the cache is full.
  pub peek-put_ne :
      (now : ℕ) (k q : K) (v : V) (c : LruCache M)
      → k ≢ q
      → victim k c ≢ some q
      → peek ops now q (put ops k v c).1 ≡ peek ops now q c
  unfolding put
  peek-put_ne now k q v c h kept =
      peek-lookup now q _
      ∙ ap (live_value now) (
          ap (lookup dec q) (iter-insert_entry dec ops linked k (fresh v) c)
          ∙ lookup-inserted_ne k q (fresh v) c h kept)
      ∙ sym (peek-lookup now q c)

  lookup-after_get :
      (now later : ℕ) (k q : K) (l : List (K × CacheEntry V))
      → now ≤ later
      → live_value later (lookup dec q (after_get dec now k l)) ≡ live_value later (lookup dec q l)
  lookup-after_get now later k q l h = elim (Option-cases (lookup dec k l)) [
    | inl absent ↦ ground arith
    | inr (e, found) ↦ elim (dec k q) [
      | yes same ↦
          rw (← same) (ground (arith, lookup-without_self dec k l, lookup-snoc_self dec k e l))
      | no other ↦
          ground (arith, lookup-without_ne dec k q l, lookup-snoc_ne dec k q e (without dec k l))
    ]
  ]

  -- `get` returns what `peek` does, and changes what `peek` returns of no key, then or later.
  pub peek-get :
      (now later : ℕ) (k q : K) (c : LruCache M)
      → now ≤ later
      → ((get ops now k c).0 ≡ peek ops now k c)
        × (peek ops later q (get ops now k c).1 ≡ peek ops later q c)
  peek-get now later k q c h = (
    (get-exact dec ops linked now k c).0 ∙ sym (peek-lookup now k c),
    peek-lookup later q _
        ∙ ap (λ l. live_value later (lookup dec q l)) (get-exact dec ops linked now k c).1
        ∙ lookup-after_get now later k q (ops.iter c.map) h
        ∙ sym (peek-lookup later q c),
  )
