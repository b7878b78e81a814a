-- ===== src/Cache/Lru/Interface.antt =====
-- `LruCache` as what the clients of a `Cache` rely on.
use oxistore.Common.{
  ℕ, ◌<◌, ◌≡◌, ◌≢◌, sym, subst, ◌∙◌, ap, true, none, some, List, [], ◌∷◌, tail, arith, inl, inr,
  Option-cases,
}
use oxistore.Common.Assoc.{
  lookup, without, Distinct, lookup-without_self, lookup-without_ne, lookup-snoc_ne,
}
use oxistore.Cache.Entry.{CacheEntry, fresh, live_value}
use oxistore.Cache.LinkedMap.{LinkedHashMap, IsLinked}
use oxistore.Cache.Contract.{IsCache, IsRetaining}
use oxistore.Cache.Lru.{LruCache, put, peek, remove, len, contains_key, as_cache}
use oxistore.Cache.Lru.Steps.{inserted, iter-insert_entry}
use oxistore.Cache.Lru.Reads.{peek-lookup, victim, peek-put_self, peek-put_ne, peek-get}

module _ {K V : Type 0} (dec : Discrete K) where
  tail-some :
      (q : K) (e : V) (l : List (K × V))
      → Distinct dec l
      → lookup dec q (tail l) ≡ some e
      → lookup dec q l ≡ some e
  unfolding lookup
  tail-some q e [] d h = h
  tail-some q e ((j, v) ∷ l) d h = ground arith

module _ {K V M : Type 0} (dec : Discrete K) (ops : LinkedHashMap K (CacheEntry V) M)
    (linked : IsLinked dec ops) where
  inserted-some :
      (k q : K) (e x : CacheEntry V) (n : ℕ) (l : List (K × CacheEntry V))
      → k ≢ q
      → Distinct dec l
      → lookup dec q (inserted dec k e n l) ≡ some x
      → lookup dec q l ≡ some x
  inserted-some k q e x n l ne d h = ground (
    arith,
    lookup-snoc_ne dec k q e (without dec k l),
    lookup-snoc_ne dec k q e (tail l),
    lookup-snoc_ne dec k q e l,
    lookup-without_ne dec k q l,
    tail-some dec q x l d,
  )

  put_ne :
      (now later : ℕ) (k q : K) (v w : V) (c : LruCache M)
      → k ≢ q
      → peek ops later q (put ops k v c).1 ≡ some w
      → peek ops later q c ≡ some w
  unfolding put
  put_ne now later k q v w c ne e =
      let l = ops.iter c.map in
      let read : live_value later (lookup dec q (inserted dec k (fresh v) c.cap l)) ≡ some w =
        ap (λ m. live_value later (lookup dec q m))
          (sym (iter-insert_entry dec ops linked k (fresh v) c))
        ∙ sym (peek-lookup dec ops linked later q _)
        ∙ e in
      peek-lookup dec ops linked later q c
      ∙ elim (Option-cases (lookup dec q (inserted dec k (fresh v) c.cap l))) [
        | inl gone ↦ absurd (ground arith)
        | inr (x, is_x) ↦
            ap (live_value later)
              (inserted-some k q (fresh v) x c.cap l ne (linked.distinct c.map) is_x ∙ sym is_x)
            ∙ read
      ]

  remove_self : (now : ℕ) (k : K) (c : LruCache M) → peek ops now k (remove ops k c).1 ≡ none
  unfolding remove
  remove_self now k c =
      peek-lookup dec ops linked now k _
      ∙ ap (live_value now) (
          ap (lookup dec k) (linked.iter-remove k c.map)
          ∙ lookup-without_self dec k (ops.iter c.map))

  remove_ne :
      (now : ℕ) (k q : K) (c : LruCache M)
      → k ≢ q
      → peek ops now q (remove ops k c).1 ≡ peek ops now q c
  unfolding remove
  remove_ne now k q c ne =
      peek-lookup dec ops linked now q _
      ∙ ap (live_value now) (
          ap (lookup dec q) (linked.iter-remove k c.map)
          ∙ lookup-without_ne dec k q (ops.iter c.map) ne)
      ∙ sym (peek-lookup dec ops linked now q c)

  remove_some :
      (now : ℕ) (k q : K) (v : V) (c : LruCache M)
      → peek ops now q (remove ops k c).1 ≡ some v
      → peek ops now q c ≡ some v
  remove_some now k q v c e = elim (dec k q) [
    | yes same ↦
        let gone : peek ops now q (remove ops k c).1 ≡ none =
          subst (λ x. peek ops now x (remove ops k c).1 ≡ none) same (remove_self now k c) in
        absurd (ground arith)
    | no ne ↦ sym (remove_ne now k q c ne) ∙ e
  ]

  no_victim_known :
      (now : ℕ) (k q : K) (c : LruCache M)
      → contains_key ops now k c ≡ true
      → victim dec ops linked k c ≢ some q
  unfolding contains_key
  no_victim_known now k q c h = ground (arith, linked.get-iter k c.map)

  no_victim_room :
      (k q : K) (c : LruCache M) → len ops c < c.cap → victim dec ops linked k c ≢ some q
  unfolding len
  no_victim_room k q c h = ground (arith, linked.len-iter c.map)

  pub lru-IsCache : IsCache (as_cache ops)
  lru-IsCache = record {
    get_hit = λ now k v c e. sym (peek-get dec ops linked now now k k c (omega arith)).0 ∙ e;
    peek-get = λ now later k q v c h e. sym (peek-get dec ops linked now later k q c h).1 ∙ e;
    peek-put_self = λ now later k v w c e. ground (arith, peek-put_self dec ops linked later k v c);
    peek-put_ne = λ now later k q v w c ne e. put_ne now later k q v w c ne e;
    peek-remove_self = remove_self;
    peek-remove_ne = remove_some;
  }

  pub lru-IsRetaining : IsRetaining (as_cache ops)
  lru-IsRetaining = record {
    get_result = λ now k c. (peek-get dec ops linked now now k k c (omega arith)).0;
    get_keeps = λ now later k q c h. (peek-get dec ops linked now later k q c h).1;
    put_takes = λ now later k v c. peek-put_self dec ops linked later k v c;
    put_update = λ now later k q v c ne h.
        peek-put_ne dec ops linked later k q v c ne (no_victim_known now k q c h);
    put_room = λ now later k q v c ne h.
        peek-put_ne dec ops linked later k q v c ne (no_victim_room k q c h);
    remove_keeps = remove_ne;
  }
