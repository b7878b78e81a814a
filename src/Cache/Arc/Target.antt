-- ===== src/Cache/Arc/Target.antt =====
-- The adaptive target `p` of an `ArcCache` stays between 0 and the capacity.
use oxistore.Common.{ℕ, ◌≤◌, ◌<◌, arith, List}
use oxistore.Cache.Entry.{CacheEntry}
use oxistore.Cache.LinkedMap.{LinkedHashMap, IsLinked}
use oxistore.Cache.Runs.{
  Op, op_get, op_put, op_put_with_ttl, op_remove, op_clear, op_resize, step, run, run_induction,
}
use oxistore.Cache.Arc.{
  ArcCache, new, insert_entry, get, put, put_with_ttl, remove, clear, as_cache, raise_target,
  lower_target,
}
use oxistore.Cache.Arc.Sizes.{
  live_len-replace, live_len-insert_ghost, live_len-insert_miss, resize-IsWithin,
}

-- The capacity is positive and bounds the target.
pub record HasTarget {M G : Type 0} (c : ArcCache M G) : Type 0 where
  pub positive : 0 < c.cap
  pub bounded : c.p ≤ c.cap

module _ {K V M G : Type 0} (dec : Discrete K) (ops : LinkedHashMap K (CacheEntry V) M)
    (ghosts : LinkedHashMap K (Unit {0}) G) (linked : IsLinked dec ops)
    (linked_ghosts : IsLinked dec ghosts) where
  insert_entry-HasTarget :
      (k : K) (e : CacheEntry V) (c : ArcCache M G)
      → HasTarget c
      → HasTarget (insert_entry ops ghosts k e c).1
  unfolding insert_entry
  insert_entry-HasTarget k e c h =
      let c1 : ArcCache M G = record c { b1 = (ghosts.remove k c.b1).1 } in
      let c2 : ArcCache M G = record c1 { b2 = (ghosts.remove k c.b2).1 } in
      ground (
        arith,
        live_len-insert_ghost dec ops ghosts linked linked_ghosts k e (raise_target ops ghosts c1),
        live_len-insert_ghost dec ops ghosts linked linked_ghosts k e (lower_target ops ghosts c2),
        live_len-insert_miss dec ops ghosts linked linked_ghosts k e c2,
      )

  get-HasTarget :
      (now : ℕ) (k : K) (c : ArcCache M G) → HasTarget c → HasTarget (get ops ghosts now k c).1
  unfolding get
  get-HasTarget now k c h = ground (
    arith,
    live_len-replace dec ops ghosts linked linked_ghosts (raise_target ops ghosts c),
    live_len-replace dec ops ghosts linked linked_ghosts (lower_target ops ghosts c),
  )

  step-HasTarget :
      (now : ℕ) (op : Op K V) (c : ArcCache M G)
      → HasTarget c
      → HasTarget (step (as_cache ops ghosts) now op c)
  unfolding put put_with_ttl remove clear
  step-HasTarget now (op_get k) c h = get-HasTarget now k c h
  step-HasTarget now (op_put k v) c h = insert_entry-HasTarget k _ c h
  step-HasTarget now (op_put_with_ttl k v ttl) c h = insert_entry-HasTarget k _ c h
  step-HasTarget now (op_remove k) c h = ground arith
  step-HasTarget now op_clear c h = ground arith
  step-HasTarget now (op_resize n) c h =
      omega (arith, resize-IsWithin dec ops ghosts linked linked_ghosts n c)

  -- From a cache made by `new`, no sequence of calls at any times takes the target `p` above the
  -- capacity of that moment, nor the capacity to 0.
  pub run-HasTarget :
      (cap : ℕ) (calls : List (ℕ × Op K V))
      → HasTarget (run (as_cache ops ghosts) calls (new ops ghosts cap))
  unfolding new
  run-HasTarget cap calls =
      run_induction (as_cache ops ghosts) HasTarget step-HasTarget calls (new ops ghosts cap)
        (ground arith)
