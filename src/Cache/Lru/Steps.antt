-- ===== src/Cache/Lru/Steps.antt =====
-- What the operations of `LruCache` do to the entries, in the order of the map.
use oxistore.Common.{
  ℕ, zero, suc, ◌-◌, ◌≤◌, ◌<◌, ◌≡◌, refl, ◌∙◌, ap, List, [], ◌∷◌, ◌++◌, length, drop, tail, arith,
  ltb, leb, if◌then◌else◌, length-tail, is_some, drop-tail, drop_congr, lt→ltb, Bool-cases, ◌&&◌,
  inl, inr, Option-cases,
}
use oxistore.Common.Assoc.{lookup, without, without_absent, lookup-snoc_self, lookup-tail_absent}
use oxistore.Cache.Entry.{CacheEntry, holds_expired, live_value}
use oxistore.Cache.LinkedMap.{LinkedHashMap, IsLinked, move_back}
use oxistore.Cache.Lru.{LruCache, insert_entry, get, shrink, resize}

module _ {K V : Type 0} (dec : Discrete K) where
  -- The entries after an insertion: an old entry of the key goes, the least recent entry goes if
  -- the key is new and the cache is full, and the new entry comes last.
  abbrev pub inserted : K → CacheEntry V → ℕ → List (K × CacheEntry V) → List (K × CacheEntry V)
  inserted k e cap l =
      (if is_some (lookup dec k l)
        then without dec k l
        else if ltb 0 cap && leb cap (length l)
        then tail l
        else l)
      ++ (k, e) ∷ []

  -- What a `get` leaves: a live entry moves to the most recent end, an expired one goes.
  abbrev pub after_get : ℕ → K → List (K × CacheEntry V) → List (K × CacheEntry V)
  after_get now k l =
      if holds_expired now (lookup dec k l) then without dec k l else move_back dec k l

module _ {K V M : Type 0} (dec : Discrete K) (ops : LinkedHashMap K (CacheEntry V) M)
    (linked : IsLinked dec ops) where
  pub iter-insert_entry :
      (k : K) (e : CacheEntry V) (c : LruCache M)
      → ops.iter (insert_entry ops k e c).1.map ≡ inserted dec k e c.cap (ops.iter c.map)
  unfolding insert_entry
  iter-insert_entry k e c = ground (
    arith,
    linked.get-iter k c.map,
    linked.len-iter c.map,
    linked.iter-insert k e c.map,
    linked.iter-insert k e (ops.pop_front c.map).1,
    linked.iter-pop_front c.map,
    without_absent dec k (ops.iter c.map),
    without_absent dec k (tail (ops.iter c.map)),
    lookup-tail_absent dec k (ops.iter c.map),
  )

  pub cap-insert_entry :
      (k : K) (e : CacheEntry V) (c : LruCache M) → (insert_entry ops k e c).1.cap ≡ c.cap
  unfolding insert_entry
  cap-insert_entry k e c = ground arith

  -- The loop of `resize` keeps the most recent entries.
  pub iter-shrink :
      (fuel cap : ℕ) (m : M)
      → ops.len m ≤ fuel
      → 0 < cap
      → ops.iter (shrink ops fuel cap m) ≡ drop (ops.len m - cap) (ops.iter m)
  unfolding shrink
  iter-shrink zero n m h p =
      let none_over : 0 ≡ ops.len m - n = omega arith in drop_congr (ops.iter m) none_over
  iter-shrink (suc fuel) n m h p = elim (Bool-cases (ltb n (ops.len m))) [
    | inl over ↦
        let shorter : ops.len (ops.pop_front m).1 ≡ ops.len m - 1 = omega (
          arith,
          linked.len-iter m,
          linked.len-iter (ops.pop_front m).1,
          ap length (linked.iter-pop_front m),
          length-tail (ops.iter m),
        ) in
        let step : suc (ops.len (ops.pop_front m).1 - n) ≡ ops.len m - n = ground arith in
        rw (over, lt→ltb 0 n p)
          (iter-shrink fuel n (ops.pop_front m).1 (omega arith) p
            ∙ ap (drop (ops.len (ops.pop_front m).1 - n)) (linked.iter-pop_front m)
            ∙ drop-tail (ops.len (ops.pop_front m).1 - n) (ops.iter m)
            ∙ drop_congr (ops.iter m) step)
    | inr fits ↦
        let none_over : 0 ≡ ops.len m - n = ground arith in
        rw (fits, lt→ltb 0 n p) (drop_congr (ops.iter m) none_over)
  ]

  -- `resize` to a positive capacity evicts from the least recent end until the entries fit: the
  -- most recent ones stay, as many as the capacity allows, in their order.
  pub resize-exact :
      (n : ℕ) (c : LruCache M)
      → 0 < n
      → (ops.iter (resize ops n c).map ≡ drop (length (ops.iter c.map) - n) (ops.iter c.map))
        × ((resize ops n c).cap ≡ n)
  unfolding resize
  resize-exact n c p = (
    iter-shrink (ops.len c.map) n c.map (omega arith) p
        ∙ drop_congr (ops.iter c.map) (ap (λ (k : ℕ). k - n) (linked.len-iter c.map)),
    refl,
  )

  lookup-move_back_self :
      (k : K) (l : List (K × CacheEntry V)) → lookup dec k (move_back dec k l) ≡ lookup dec k l
  lookup-move_back_self k l = elim (Option-cases (lookup dec k l)) [
    | inl e ↦ ground arith
    | inr (v, e) ↦ ground (arith, lookup-snoc_self dec k v l)
  ]

  -- `get` returns what `peek` would, and changes the entries only by that.
  pub get-exact :
      (now : ℕ) (k : K) (c : LruCache M)
      → ((get ops now k c).0 ≡ live_value now (lookup dec k (ops.iter c.map)))
        × (ops.iter (get ops now k c).1.map ≡ after_get dec now k (ops.iter c.map))
        × ((get ops now k c).1.cap ≡ c.cap)
  unfolding get
  get-exact now k c = ground (
    arith,
    linked.get-iter k c.map,
    linked.get-iter k (ops.to_back k c.map),
    linked.iter-to_back k c.map,
    linked.iter-remove k c.map,
    lookup-move_back_self k (ops.iter c.map),
  )
