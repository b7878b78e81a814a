-- ===== src/Cache/Lru/Bounds.antt =====
-- The capacity of an `LruCache`, and what `put` evicts.
use oxistore.Common.{
  ℕ, ◌+◌, ◌-◌, ◌≤◌, ◌<◌, ◌≡◌, refl, ◌∙◌, ap, none, some, List, [], ◌∷◌, ◌++◌, length, tail, arith,
  ltb, leb, if◌then◌else◌, is_some, ◌&&◌, Option-cases, inl, inr, length-append, length-tail,
  length-drop,
}
use oxistore.Common.Assoc.{Distinct, lookup, without, length-without_present, length-without_le}
use oxistore.Cache.Entry.{CacheEntry, fresh}
use oxistore.Cache.LinkedMap.{LinkedHashMap, IsLinked}
use oxistore.Cache.Runs.{
  Op, op_get, op_put, op_put_with_ttl, op_remove, op_clear, op_resize, step, run, run_induction,
}
use oxistore.Cache.Lru.{
  as_cache, LruCache, insert_entry, get, put, put_with_ttl, remove, clear, resize,
}
use oxistore.Cache.Lru.Steps.{
  inserted, iter-insert_entry, cap-insert_entry, after_get, get-exact, resize-exact,
}

module _ {K V M : Type 0} (ops : LinkedHashMap K (CacheEntry V) M) where
  -- Never more entries than a positive capacity.
  abbrev pub IsBounded : LruCache M → Type 0
  IsBounded c = 0 < c.cap → length (ops.iter c.map) ≤ c.cap

module _ {K V : Type 0} (dec : Discrete K) where
  length-inserted :
      (k : K) (e : CacheEntry V) (n : ℕ) (l : List (K × CacheEntry V))
      → Distinct dec l
      → length l ≤ n
      → 0 < n
      → length (inserted dec k e n l) ≤ n
  length-inserted k e n l d bound p = elim (Option-cases (lookup dec k l)) [
    | inl absent ↦
        ground (
          arith,
          length-append (tail l) ((k, e) ∷ []),
          length-append l ((k, e) ∷ []),
          length-tail l,
        )
    | inr (v, found) ↦ ground (
      arith,
      length-append (without dec k l) ((k, e) ∷ []),
      length-without_present dec k l v d found,
    )
  ]

  length-after_get :
      (now : ℕ) (k : K) (l : List (K × CacheEntry V))
      → Distinct dec l
      → length (after_get dec now k l) ≤ length l
  length-after_get now k l d = elim (Option-cases (lookup dec k l)) [
    | inl absent ↦ ground arith
    | inr (v, found) ↦ ground (
      arith,
      length-append (without dec k l) ((k, v) ∷ []),
      length-without_present dec k l v d found,
    )
  ]

module _ {K V M : Type 0} (dec : Discrete K) (ops : LinkedHashMap K (CacheEntry V) M)
    (linked : IsLinked dec ops) where
  insert_entry-IsBounded :
      (k : K) (e : CacheEntry V) (c : LruCache M)
      → IsBounded ops c
      → IsBounded ops (insert_entry ops k e c).1
  insert_entry-IsBounded k e c h p =
      let same = cap-insert_entry dec ops linked k e c in
      omega (
        arith,
        same,
        ap length (iter-insert_entry dec ops linked k e c),
        length-inserted dec k e c.cap (ops.iter c.map) (linked.distinct c.map)
            (h (omega (arith, same))) (omega (arith, same)),
      )

  get-IsBounded :
      (now : ℕ) (k : K) (c : LruCache M) → IsBounded ops c → IsBounded ops (get ops now k c).1
  get-IsBounded now k c h p =
      let (result, left, same) = get-exact dec ops linked now k c in
      omega (
        arith,
        same,
        ap length left,
        length-after_get dec now k (ops.iter c.map) (linked.distinct c.map),
        h (omega (arith, same)),
      )

  remove-IsBounded : (k : K) (c : LruCache M) → IsBounded ops c → IsBounded ops (remove ops k c).1
  unfolding remove
  remove-IsBounded k c h p =
      omega (
        arith,
        ap length (linked.iter-remove k c.map),
        length-without_le dec k (ops.iter c.map),
        h p,
      )

  resize-cap : (n : ℕ) (c : LruCache M) → (resize ops n c).cap ≡ n
  unfolding resize
  resize-cap n c = refl

  resize-IsBounded : (n : ℕ) (c : LruCache M) → IsBounded ops (resize ops n c)
  resize-IsBounded n c p =
      let q : 0 < n = omega (arith, resize-cap n c) in
      omega (
        arith,
        resize-cap n c,
        ap length (resize-exact dec ops linked n c q).0,
        length-drop (length (ops.iter c.map) - n) (ops.iter c.map),
      )

  step-IsBounded :
      (now : ℕ) (op : Op K V) (c : LruCache M)
      → IsBounded ops c
      → IsBounded ops (step (as_cache ops) now op c)
  unfolding put put_with_ttl clear
  step-IsBounded now (op_get k) c h = get-IsBounded now k c h
  step-IsBounded now (op_put k v) c h = insert_entry-IsBounded k _ c h
  step-IsBounded now (op_put_with_ttl k v ttl) c h = insert_entry-IsBounded k _ c h
  step-IsBounded now (op_remove k) c h = remove-IsBounded k c h
  step-IsBounded now op_clear c h = λ p. omega (arith, ap length linked.iter-empty)
  step-IsBounded now (op_resize n) c h = resize-IsBounded n c

  -- From a cache within its capacity, no sequence of calls at any times, changes of the capacity
  -- included, leaves more entries than the capacity of that moment, if that is positive.
  pub run-IsBounded :
      (calls : List (ℕ × Op K V)) (c : LruCache M)
      → IsBounded ops c
      → IsBounded ops (run (as_cache ops) calls c)
  run-IsBounded = run_induction (as_cache ops) (IsBounded ops) step-IsBounded

  -- `put` evicts exactly when the key is new and a positive capacity is reached: then it returns the
  -- value of the least recent entry, that entry is gone, and the other entries are as before.
  -- Otherwise it returns nothing, and at most the old entry of the key is gone. In every case the
  -- new entry comes last.
  pub put_evicts :
      (k : K) (v : V) (c : LruCache M)
      → ((put ops k v c).0 ≡ (
          if is_some (lookup dec k (ops.iter c.map))
          then none
          else if ltb 0 c.cap && leb c.cap (length (ops.iter c.map))
          then (elim (ops.iter c.map) [ [] ↦ none | kv ∷ l ↦ some kv.1.value ])
          else none))
        × (ops.iter (put ops k v c).1.map
            ≡ (if is_some (lookup dec k (ops.iter c.map))
                then without dec k (ops.iter c.map)
                else if ltb 0 c.cap && leb c.cap (length (ops.iter c.map))
                then tail (ops.iter c.map)
                else ops.iter c.map)
              ++ (k, fresh v) ∷ [])
  unfolding put
  put_evicts k v c = (
    ground (arith, linked.get-iter k c.map, linked.len-iter c.map, linked.pop_front_old c.map),
    iter-insert_entry dec ops linked k (fresh v) c,
  )

  -- With a capacity of 0, `put` of a new key evicts nothing, whatever the cache holds: its size
  -- grows by one.
  pub put_unbounded_at_zero :
      (k : K) (v : V) (c : LruCache M)
      → c.cap ≡ 0
      → lookup dec k (ops.iter c.map) ≡ none
      → (length (ops.iter (put ops k v c).1.map) ≡ length (ops.iter c.map) + 1)
        × ((put ops k v c).0 ≡ none)
  unfolding put
  put_unbounded_at_zero k v c e absent = (
    ap length (iter-insert_entry dec ops linked k (fresh v) c)
        ∙ ground (arith, length-append (ops.iter c.map) ((k, fresh v) ∷ [])),
    (put_evicts k v c).0 ∙ ground arith,
  )
