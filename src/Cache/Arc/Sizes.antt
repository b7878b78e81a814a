-- ===== src/Cache/Arc/Sizes.antt =====
-- How many live entries an `ArcCache` holds.
use oxistore.Common.{
  ℕ, zero, suc, ◌+◌, ◌-◌, ◌≤◌, ◌<◌, ◌≡◌, ◌≢◌, ap, none, arith, ◌⊎◌, Option-cases, inl, inr, ltb,
  if◌then◌else◌, max, min,
}
use oxistore.Cache.Entry.{CacheEntry, fresh}
use oxistore.Cache.LinkedMap.{LinkedHashMap, IsLinked}
use oxistore.Cache.LinkedMap.Laws.{
  len-insert_le, len-insert_absent, len-insert_present, len-remove_present, len-pop_front,
  remove-get, len-remove_absent,
}
use oxistore.Cache.Arc.{
  ArcCache, evict_t1, evict_t2, replace, insert_ghost, make_room, trim_directory, insert_miss,
  insert_entry, get, put, shrink, resize, live_len, raise_target, lower_target,
}

module _ {K V M G : Type 0} (dec : Discrete K) (ops : LinkedHashMap K (CacheEntry V) M)
    (ghosts : LinkedHashMap K (Unit {0}) G) (linked : IsLinked dec ops)
    (linked_ghosts : IsLinked dec ghosts) where
  len-evict_t1 :
      (c : ArcCache M G)
      → (ops.len (evict_t1 ops ghosts c).t1 ≡ ops.len c.t1 - 1)
        × (ops.len (evict_t1 ops ghosts c).t2 ≡ ops.len c.t2)
        × ((evict_t1 ops ghosts c).cap ≡ c.cap)
        × ((evict_t1 ops ghosts c).p ≡ c.p)
  unfolding evict_t1
  len-evict_t1 c = ground (arith, len-pop_front dec ops linked c.t1)

  len-evict_t2 :
      (c : ArcCache M G)
      → (ops.len (evict_t2 ops ghosts c).t2 ≡ ops.len c.t2 - 1)
        × (ops.len (evict_t2 ops ghosts c).t1 ≡ ops.len c.t1)
        × ((evict_t2 ops ghosts c).cap ≡ c.cap)
        × ((evict_t2 ops ghosts c).p ≡ c.p)
  unfolding evict_t2
  len-evict_t2 c = ground (arith, len-pop_front dec ops linked c.t2)

  -- The REPLACE routine evicts exactly one live entry, if there is one, and leaves the capacity
  -- and the target as they are.
  pub live_len-replace :
      (c : ArcCache M G)
      → (live_len ops ghosts (replace ops ghosts c) ≡ live_len ops ghosts c - 1)
        × ((replace ops ghosts c).cap ≡ c.cap)
        × ((replace ops ghosts c).p ≡ c.p)
  unfolding replace
  live_len-replace c = ground (arith, len-evict_t1 c, len-evict_t2 c)

  -- A number of live entries within the capacity.
  abbrev pub IsWithin : ArcCache M G → Type 0
  IsWithin c = live_len ops ghosts c ≤ c.cap

  pub live_len-insert_ghost :
      (k : K) (e : CacheEntry V) (c : ArcCache M G)
      → 0 < c.cap
      → (live_len ops ghosts (insert_ghost ops ghosts k e c) ≤ max (live_len ops ghosts c) c.cap)
        × ((insert_ghost ops ghosts k e c).cap ≡ c.cap)
        × ((insert_ghost ops ghosts k e c).p ≡ c.p)
  unfolding insert_ghost
  live_len-insert_ghost k e c h = ground (
    arith,
    live_len-replace c,
    len-insert_le dec ops linked k e c.t2,
    len-insert_le dec ops linked k e (replace ops ghosts c).t2,
  )

  -- The one state in which a full miss does not evict a live entry although the cache is full.
  abbrev pub Overflows : ArcCache M G → Type 0
  Overflows c = (ops.len c.t1 ≡ 0) × (ghosts.len c.b1 ≡ c.cap) × (c.cap ≤ live_len ops ghosts c)

  trim_directory_keeps :
      (c : ArcCache M G)
      → ((trim_directory ops ghosts c).t1 ≡ c.t1)
        × ((trim_directory ops ghosts c).t2 ≡ c.t2)
        × ((trim_directory ops ghosts c).cap ≡ c.cap)
        × ((trim_directory ops ghosts c).p ≡ c.p)
  unfolding trim_directory
  trim_directory_keeps c = ground arith

  live_len-make_room :
      (c : ArcCache M G)
      → 0 < c.cap
      → (live_len ops ghosts (make_room ops ghosts c) ≤ live_len ops ghosts c)
        × ((live_len ops ghosts (make_room ops ghosts c) + 1 ≤ max (live_len ops ghosts c) c.cap)
            ⊎ Overflows c)
        × ((make_room ops ghosts c).cap ≡ c.cap)
        × ((make_room ops ghosts c).p ≡ c.p)
  unfolding make_room
  live_len-make_room c h = ground (
    arith,
    live_len-replace c,
    live_len-replace (trim_directory ops ghosts c),
    trim_directory_keeps c,
    ap (λ m. ops.len m) (trim_directory_keeps c).0,
    ap (λ m. ops.len m) (trim_directory_keeps c).1,
  )

  pub live_len-insert_miss :
      (k : K) (e : CacheEntry V) (c : ArcCache M G)
      → 0 < c.cap
      → ((live_len ops ghosts (insert_miss ops ghosts k e c) ≤ max (live_len ops ghosts c) c.cap)
          ⊎ Overflows c)
        × ((insert_miss ops ghosts k e c).cap ≡ c.cap)
        × ((insert_miss ops ghosts k e c).p ≡ c.p)
  unfolding insert_miss
  live_len-insert_miss k e c h =
      ground (
        arith,
        live_len-make_room c h,
        len-insert_le dec ops linked k e (make_room ops ghosts c).t1,
      )

  -- By cases: the key is live, a ghost, or unknown.
  pub live_len-insert_entry :
      (k : K) (e : CacheEntry V) (c : ArcCache M G)
      → 0 < c.cap
      → ((live_len ops ghosts (insert_entry ops ghosts k e c).1 ≤ max (live_len ops ghosts c) c.cap)
          ⊎ Overflows c)
        × ((insert_entry ops ghosts k e c).1.cap ≡ c.cap)
  unfolding insert_entry
  live_len-insert_entry k e c h = elim (Option-cases (ops.get k c.t1)) [
    | inr (v, in_t1) ↦ ground (
      arith,
      len-remove_present dec ops linked k v c.t1 in_t1,
      len-insert_le dec ops linked k e c.t2,
    )
    | inl not_t1 ↦ elim (Option-cases (ops.get k c.t2)) [
      | inr (v, in_t2) ↦ ground (arith, len-insert_present dec ops linked k e v c.t2 in_t2)
      | inl not_t2 ↦
          let c1 : ArcCache M G = record c { b1 = (ghosts.remove k c.b1).1 } in
          let c2 : ArcCache M G = record c1 { b2 = (ghosts.remove k c.b2).1 } in
          ground (
            arith,
            remove-get dec ghosts linked_ghosts k c.b1,
            len-remove_absent dec ghosts linked_ghosts k c.b1,
            live_len-insert_ghost k e (raise_target ops ghosts c1),
            live_len-insert_ghost k e (lower_target ops ghosts c2),
            live_len-insert_miss k e c2 h,
          )
    ]
  ]

  -- An insertion, with or without a TTL, into a cache within its capacity leaves it within its
  -- capacity, except from a state with no entry seen once and as many ghosts of such entries as
  -- the capacity.
  pub insert_entry-IsWithin :
      (k : K) (e : CacheEntry V) (c : ArcCache M G)
      → 0 < c.cap
      → IsWithin c
      → ((ops.len c.t1 ≢ 0) ⊎ (ghosts.len c.b1 ≢ c.cap))
      → IsWithin (insert_entry ops ghosts k e c).1
  insert_entry-IsWithin k e c h within other = ground (arith, live_len-insert_entry k e c h)

  -- From a full cache with no entry seen once, and as many ghosts of such entries as its positive
  -- capacity, `put` of a key that it does not know, live or as a ghost, evicts nothing, so the
  -- number of live entries passes the capacity.
  pub put-Overflows :
      (k : K) (v : V) (c : ArcCache M G)
      → Overflows c
      → 0 < c.cap
      → ops.get k c.t1 ≡ none
      → ops.get k c.t2 ≡ none
      → ghosts.get k c.b1 ≡ none
      → ghosts.get k c.b2 ≡ none
      → (live_len ops ghosts (put ops ghosts k v c).1 ≡ live_len ops ghosts c + 1)
        × (c.cap < live_len ops ghosts (put ops ghosts k v c).1)
  unfolding put insert_entry insert_miss make_room
  put-Overflows k v c over h n1 n2 n3 n4 = ground (
    arith,
    remove-get dec ghosts linked_ghosts k c.b1,
    remove-get dec ghosts linked_ghosts k c.b2,
    len-remove_absent dec ghosts linked_ghosts k c.b1 n3,
    len-insert_absent dec ops linked k (fresh v) c.t1 n1,
  )

  -- A `get` never adds a live entry, and leaves the capacity as it is.
  pub live_len-get_le :
      (now : ℕ) (k : K) (c : ArcCache M G)
      → (live_len ops ghosts (get ops ghosts now k c).1 ≤ live_len ops ghosts c)
        × ((get ops ghosts now k c).1.cap ≡ c.cap)
  unfolding get
  live_len-get_le now k c = elim (Option-cases (ops.get k c.t1)) [
    | inr (v, in_t1) ↦ ground (
      arith,
      remove-get dec ops linked k c.t1,
      len-remove_present dec ops linked k v c.t1 in_t1,
      len-insert_le dec ops linked k v c.t2,
    )
    | inl not_t1 ↦ elim (Option-cases (ops.get k c.t2)) [
      | inr (v, in_t2) ↦ ground (
        arith,
        remove-get dec ops linked k c.t2,
        len-remove_present dec ops linked k v c.t2 in_t2,
        len-insert_le dec ops linked k v (ops.remove k c.t2).1,
      )
      | inl not_t2 ↦ ground (
        arith,
        live_len-replace (raise_target ops ghosts c),
        live_len-replace (lower_target ops ghosts c),
      )
    ]
  ]

  pub shrink-IsWithin :
      (fuel : ℕ) (c : ArcCache M G)
      → live_len ops ghosts c ≤ fuel
      → IsWithin (shrink ops ghosts fuel c)
        × ((shrink ops ghosts fuel c).cap ≡ c.cap)
        × ((shrink ops ghosts fuel c).p ≡ c.p)
  unfolding shrink
  shrink-IsWithin zero c h = ground arith
  shrink-IsWithin (suc fuel) c h =
      ground (arith, live_len-replace c, shrink-IsWithin fuel (replace ops ghosts c))

  -- `resize` ends within the new capacity (at least 1), whatever the cache held before, and with
  -- the target clamped to it.
  pub resize-IsWithin :
      (n : ℕ) (c : ArcCache M G)
      → IsWithin (resize ops ghosts n c)
        × ((resize ops ghosts n c).cap ≡ max n 1)
        × ((resize ops ghosts n c).p ≡ min c.p (max n 1))
  unfolding resize
  resize-IsWithin n c =
      let c' : ArcCache M G = record c {
        cap = max n 1;
        p = if ltb (max n 1) c.p then max n 1 else c.p;
      } in
      ground (arith, shrink-IsWithin (live_len ops ghosts c) c')
