-- ===== src/Cache/Arc.antt =====
-- `ArcCache` of crates/oxistore-cache/src/arc.rs: two lists of live entries, two of ghost keys, and
-- the adaptive target `p`. In each map the front is the least recent.
pub mod Sizes
pub mod Target
pub mod Reads
use oxistore.Common.{
  ℕ, zero, suc, ◌+◌, ◌-◌, ◌*◌, ◌/◌, Bool, true, false, not, ◌&&◌, ◌||◌, Option, none, some, List,
  ◌++◌, map, ltb, leb, ◌==◌, max, min, if◌then◌else◌, is_some, keep_if,
}
use oxistore.Cache.Entry.{
  CacheEntry, fresh, with_ttl, is_expired, live_value, holds_expired, value_of,
}
use oxistore.Cache.LinkedMap.{LinkedHashMap, contains}
use oxistore.Cache.Trait.{Cache}

pub record ArcCache (M G : Type 0) : Type 0 where
  pub t1 : M
  pub t2 : M
  pub b1 : G
  pub b2 : G
  pub p : ℕ
  pub cap : ℕ

module _ {K V M G : Type 0} (ops : LinkedHashMap K (CacheEntry V) M)
    (ghosts : LinkedHashMap K (Unit {0}) G) where
  unfoldable pub new : ℕ → ArcCache M G
  new cap = record {
    t1 = ops.empty;
    t2 = ops.empty;
    b1 = ghosts.empty;
    b2 = ghosts.empty;
    p = 0;
    cap = max cap 1;
  }

  -- `len`
  abbrev pub live_len : ArcCache M G → ℕ
  live_len c = ops.len c.t1 + ops.len c.t2

  abbrev pub directory_len : ArcCache M G → ℕ
  directory_len c = ops.len c.t1 + ops.len c.t2 + ghosts.len c.b1 + ghosts.len c.b2

  -- `remove_if_expired_t1`, `remove_if_expired_t2`: the test, and the map after it
  abbrev pub drop_expired : ℕ → K → M → Bool × M
  drop_expired now key m =
      if holds_expired now (ops.get key m) then (true, (ops.remove key m).1) else (false, m)

  -- A key leaves a live list for its ghost list, which loses its front if the directory is full.
  -- The directory is measured with the key already out.
  unfoldable pub remember : ℕ → ℕ → K → G → G
  remember directory cap k b =
      (ghosts.insert k tt (if leb (2 * cap) directory then (ghosts.pop_front b).1 else b)).1

  unfoldable pub evict_t1 : ArcCache M G → ArcCache M G
  evict_t1 c =
      let popped = record c { t1 = (ops.pop_front c.t1).1 } in
      elim (ops.pop_front c.t1).0 [
        | none ↦ popped
        | some (k, e) ↦ record popped { b1 = remember (directory_len popped) c.cap k c.b1 }
      ]

  unfoldable pub evict_t2 : ArcCache M G → ArcCache M G
  evict_t2 c =
      let popped = record c { t2 = (ops.pop_front c.t2).1 } in
      elim (ops.pop_front c.t2).0 [
        | none ↦ popped
        | some (k, e) ↦ record popped { b2 = remember (directory_len popped) c.cap k c.b2 }
      ]

  unfoldable pub replace : ArcCache M G → ArcCache M G
  replace c =
      if leb (max c.p 1) (ops.len c.t1) && leb 1 (ops.len c.t1)
      then evict_t1 c
      else if not (ops.len c.t2 == 0)
      then evict_t2 c
      else if not (ops.len c.t1 == 0)
      then evict_t1 c
      else c

  -- The change of `p` on a ghost hit. For an insertion the key has left its ghost list already.
  abbrev pub raise_target : ArcCache M G → ArcCache M G
  raise_target c = record c {
    p = min (c.p + max (ghosts.len c.b2 / max (ghosts.len c.b1) 1) 1) c.cap;
  }

  abbrev pub lower_target : ArcCache M G → ArcCache M G
  lower_target c = record c { p = c.p - max (ghosts.len c.b1 / max (ghosts.len c.b2) 1) 1 }

  -- A ghost hit of an insertion, after the change of `p`.
  unfoldable pub insert_ghost : K → CacheEntry V → ArcCache M G → ArcCache M G
  insert_ghost key entry c =
      let c' = if leb c.cap (live_len c) then replace c else c in
      record c' { t2 = (ops.insert key entry c'.t2).1 }

  -- The front of `b2`, or of `b1` if `b2` is empty, is forgotten.
  abbrev pub forget_ghost : ArcCache M G → ArcCache M G
  forget_ghost c =
      if not (ghosts.len c.b2 == 0)
      then record c { b2 = (ghosts.pop_front c.b2).1 }
      else record c { b1 = (ghosts.pop_front c.b1).1 }

  -- Before a replacement a full directory loses a ghost, if it has one.
  unfoldable pub trim_directory : ArcCache M G → ArcCache M G
  trim_directory c =
      if leb (2 * c.cap) (directory_len c)
      then (if not (ghosts.len c.b2 == 0)
          then record c { b2 = (ghosts.pop_front c.b2).1 }
          else if not (ghosts.len c.b1 == 0)
          then record c { b1 = (ghosts.pop_front c.b1).1 }
          else c)
      else c

  -- What a full miss does before the entry goes into `t1`.
  unfoldable pub make_room : ArcCache M G → ArcCache M G
  make_room c =
      if ltb (live_len c) c.cap
      then (if leb c.cap (directory_len c) && leb (2 * c.cap) (directory_len c)
          then forget_ghost c
          else c)
      else if ops.len c.t1 + ghosts.len c.b1 == c.cap
      then (if not (ops.len c.t1 == 0)
          then replace c
          else record c { b1 = (ghosts.pop_front c.b1).1 })
      else replace (trim_directory c)

  unfoldable pub insert_miss : K → CacheEntry V → ArcCache M G → ArcCache M G
  insert_miss key entry c =
      let c' = make_room c in record c' { t1 = (ops.insert key entry c'.t1).1 }

  unfoldable pub insert_entry : K → CacheEntry V → ArcCache M G → Option V × ArcCache M G
  insert_entry key entry c =
      if contains ops key c.t1
      then (
        value_of (ops.remove key c.t1).0,
        record c { t1 = (ops.remove key c.t1).1; t2 = (ops.insert key entry c.t2).1 },
      )
      else if contains ops key c.t2
      then (value_of (ops.insert key entry c.t2).0, record c { t2 = (ops.insert key entry c.t2).1 })
      else let c1 = record c { b1 = (ghosts.remove key c.b1).1 } in
        if is_some (ghosts.remove key c.b1).0
        then (none, insert_ghost key entry (raise_target c1))
        else let c2 = record c1 { b2 = (ghosts.remove key c.b2).1 } in
          if is_some (ghosts.remove key c.b2).0
          then (none, insert_ghost key entry (lower_target c2))
          else (none, insert_miss key entry c2)

  -- A live key of `t1` moves to the back of `t2`; one of `t2` to the back of `t2`. (`None` in the
  -- place of the entry is the panic of `expect`, and cannot come up.)
  abbrev pub promote : K → Option (CacheEntry V) → M → Option V × M
  promote key none t2 = (none, t2)
  promote key (some e) t2 =
      (value_of (ops.get key (ops.insert key e t2).1), (ops.insert key e t2).1)

  unfoldable pub get : ℕ → K → ArcCache M G → Option V × ArcCache M G
  get now key c =
      if contains ops key c.t1
      then (if (drop_expired now key c.t1).0
          then (none, record c { t1 = (drop_expired now key c.t1).1 })
          else (let (v, t2') = promote key (ops.remove key c.t1).0 c.t2 in
              (v, record c { t1 = (ops.remove key c.t1).1; t2 = t2' })))
      else if contains ops key c.t2
      then (if (drop_expired now key c.t2).0
          then (none, record c { t2 = (drop_expired now key c.t2).1 })
          else (let (v, t2') = promote key (ops.remove key c.t2).0 (ops.remove key c.t2).1 in
              (v, record c { t2 = t2' })))
      else if contains ghosts key c.b1
      then (none, replace (raise_target c))
      else if contains ghosts key c.b2
      then (none, replace (lower_target c))
      else (none, c)

  unfoldable pub put : K → V → ArcCache M G → Option V × ArcCache M G
  put key value = insert_entry key (fresh value)

  unfoldable pub put_with_ttl : ℕ → K → V → ℕ → ArcCache M G → Option V × ArcCache M G
  put_with_ttl now key value ttl = insert_entry key (with_ttl now value ttl)

  unfoldable pub peek : ℕ → K → ArcCache M G → Option V
  peek now key c =
      let from_t1 = live_value now (ops.get key c.t1) in
      if is_some from_t1 then from_t1 else live_value now (ops.get key c.t2)

  unfoldable pub contains_key : ℕ → K → ArcCache M G → Bool
  contains_key now key c =
      is_some (live_value now (ops.get key c.t1)) || is_some (live_value now (ops.get key c.t2))

  unfoldable pub remove : K → ArcCache M G → Option V × ArcCache M G
  remove key c =
      let c1 = record c { t1 = (ops.remove key c.t1).1 } in
      if is_some (ops.remove key c.t1).0
      then (value_of (ops.remove key c.t1).0, c1)
      else let c2 = record c1 { t2 = (ops.remove key c.t2).1 } in
        if is_some (ops.remove key c.t2).0
        then (value_of (ops.remove key c.t2).0, c2)
        else (none, record c2 { b1 = (ghosts.remove key c.b1).1; b2 = (ghosts.remove key c.b2).1 })

  unfoldable pub clear : ArcCache M G → ArcCache M G
  clear c = record {
    t1 = ops.empty;
    t2 = ops.empty;
    b1 = ghosts.empty;
    b2 = ghosts.empty;
    p = 0;
    cap = c.cap;
  }

  -- The `while` loop of `resize`; each round evicts a live entry, so as many rounds as there are
  -- live entries are enough.
  unfoldable pub shrink : ℕ → ArcCache M G → ArcCache M G
  shrink zero c = c
  shrink (suc fuel) c =
      let rest = shrink fuel (replace c) in if ltb c.cap (live_len c) then rest else c

  unfoldable pub resize : ℕ → ArcCache M G → ArcCache M G
  resize new_cap c =
      let cap' = max new_cap 1 in
      shrink (live_len c) (record c { cap = cap'; p = if ltb cap' c.p then cap' else c.p })

  unfoldable pub values : ℕ → ArcCache M G → List V
  values now c =
      map (λ kv. kv.1.value) (keep_if (λ kv. not (is_expired now kv.1)) (ops.iter c.t1))
      ++ map (λ kv. kv.1.value) (keep_if (λ kv. not (is_expired now kv.1)) (ops.iter c.t2))

  -- `impl Cache for ArcCache`
  abbrev pub as_cache : Cache K V (ArcCache M G)
  as_cache = record {
    get = get;
    put = λ now. put;
    put_with_ttl = put_with_ttl;
    len = live_len;
    cap = λ c. c.cap;
    remove = remove;
    clear = clear;
    peek = peek;
    contains_key = contains_key;
    resize = resize;
    values = values;
  }
