-- ===== src/Cache/Arc/Reads.antt =====
-- What `peek` reads from an `ArcCache` after an insertion, and what an insertion returns.
use oxistore.Common.{ℕ, ◌≡◌, ◌⊎◌, ap, none, some, arith, inr, if◌then◌else◌, is_some}
use oxistore.Cache.Entry.{CacheEntry, fresh, value_of}
use oxistore.Cache.LinkedMap.{LinkedHashMap, IsLinked}
use oxistore.Cache.LinkedMap.Laws.{
  get-insert_self, get-remove_self, get-pop_front_absent, remove-get, insert-get,
}
use oxistore.Cache.Arc.{
  ArcCache, evict_t1, evict_t2, replace, make_room, insert_ghost, insert_miss, insert_entry, put,
  peek, raise_target, lower_target,
}

module _ {K V M G : Type 0} (dec : Discrete K) (ops : LinkedHashMap K (CacheEntry V) M)
    (ghosts : LinkedHashMap K (Unit {0}) G) (linked : IsLinked dec ops)
    (linked_ghosts : IsLinked dec ghosts) where
  -- A key that is not in `t1` is not there after a replacement.
  evict_t1_absent :
      (k : K) (c : ArcCache M G)
      → ops.get k c.t1 ≡ none
      → ops.get k (evict_t1 ops ghosts c).t1 ≡ none
  unfolding evict_t1
  evict_t1_absent k c h = ground (arith, get-pop_front_absent dec ops linked k c.t1 h)

  evict_t2_t1 : (c : ArcCache M G) → (evict_t2 ops ghosts c).t1 ≡ c.t1
  unfolding evict_t2
  evict_t2_t1 c = ground arith

  replace_absent :
      (k : K) (c : ArcCache M G)
      → ops.get k c.t1 ≡ none
      → ops.get k (replace ops ghosts c).t1 ≡ none
  unfolding replace
  replace_absent k c h = ground (arith, evict_t1_absent k c h, ap (ops.get k) (evict_t2_t1 c))

  -- The key is live with this entry, and nowhere in `t1` with another one.
  abbrev Holds : K → CacheEntry V → ArcCache M G → Type 0
  Holds k e c = ((ops.get k c.t1 ≡ none) × (ops.get k c.t2 ≡ some e)) ⊎ (ops.get k c.t1 ≡ some e)

  insert_ghost-Holds :
      (k : K) (e : CacheEntry V) (c : ArcCache M G)
      → ops.get k c.t1 ≡ none
      → Holds k e (insert_ghost ops ghosts k e c)
  unfolding insert_ghost
  insert_ghost-Holds k e c h = ground (
    arith,
    replace_absent k c h,
    get-insert_self dec ops linked k e c.t2,
    get-insert_self dec ops linked k e (replace ops ghosts c).t2,
  )

  insert_miss-Holds :
      (k : K) (e : CacheEntry V) (c : ArcCache M G) → Holds k e (insert_miss ops ghosts k e c)
  unfolding insert_miss
  insert_miss-Holds k e c = inr (get-insert_self dec ops linked k e (make_room ops ghosts c).t1)

  insert_entry-Holds :
      (k : K) (e : CacheEntry V) (c : ArcCache M G) → Holds k e (insert_entry ops ghosts k e c).1
  unfolding insert_entry
  insert_entry-Holds k e c =
      let c1 : ArcCache M G = record c { b1 = (ghosts.remove k c.b1).1 } in
      let c2 : ArcCache M G = record c1 { b2 = (ghosts.remove k c.b2).1 } in
      ground (
        arith,
        get-remove_self dec ops linked k c.t1,
        get-insert_self dec ops linked k e c.t2,
        insert_ghost-Holds k e (raise_target ops ghosts c1),
        insert_ghost-Holds k e (lower_target ops ghosts c2),
        insert_miss-Holds k e c2,
      )

  -- After `put`, `peek` of the key returns the new value at any time, whether the key was live, a
  -- ghost, or unknown.
  pub arc_peek-put_self :
      (now : ℕ) (k : K) (v : V) (c : ArcCache M G)
      → peek ops ghosts now k (put ops ghosts k v c).1 ≡ some v
  unfolding put peek
  arc_peek-put_self now k v c = ground (arith, insert_entry-Holds k (fresh v) c)

  -- `put` returns the value that it replaces, if the key was live (expired or not), and otherwise
  -- nothing: never an evicted value.
  pub put-replaced :
      (k : K) (v : V) (c : ArcCache M G)
      → (put ops ghosts k v c).0 ≡ (
          if is_some (ops.get k c.t1) then value_of (ops.get k c.t1) else value_of (ops.get k c.t2))
  unfolding put insert_entry
  put-replaced k v c =
      ground (arith, remove-get dec ops linked k c.t1, insert-get dec ops linked k (fresh v) c.t2)
