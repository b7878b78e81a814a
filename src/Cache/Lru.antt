-- ===== src/Cache/Lru.antt =====
-- `LruCache` of crates/oxistore-cache/src/lru.rs: the front of the map is the least recently used.
pub mod Steps
pub mod Reads
pub mod Bounds
pub mod Interface
use oxistore.Common.{
  ℕ, zero, suc, Bool, true, false, not, ◌&&◌, Option, none, some, List, [], ◌∷◌, map, ltb, leb,
  length, max, if◌then◌else◌, keep_if,
}
use oxistore.Cache.Entry.{
  CacheEntry, fresh, with_ttl, is_expired, live_value, holds_expired, value_of,
}
use oxistore.Cache.LinkedMap.{LinkedHashMap, contains}
use oxistore.Cache.Trait.{Cache}

pub record LruCache (M : Type 0) : Type 0 where
  pub map : M
  pub cap : ℕ

module _ {K V M : Type 0} (ops : LinkedHashMap K (CacheEntry V) M) where
  unfoldable pub new : ℕ → LruCache M
  new cap = record { map = ops.empty; cap = cap }

  -- `pop_front().map(|(_, e)| e.value)`
  abbrev pub front_value : M → Option V
  front_value m = elim (ops.pop_front m).0 [ none ↦ none | some (k, e) ↦ some e.value ]

  unfoldable pub insert_entry : K → CacheEntry V → LruCache M → Option V × LruCache M
  insert_entry key entry c =
      if contains ops key c.map
      then (none, record c { map = (ops.insert key entry c.map).1 })
      else if ltb 0 c.cap && leb c.cap (ops.len c.map)
      then (front_value c.map, record c { map = (ops.insert key entry (ops.pop_front c.map).1).1 })
      else (none, record c { map = (ops.insert key entry c.map).1 })

  unfoldable pub get : ℕ → K → LruCache M → Option V × LruCache M
  get now key c =
      if holds_expired now (ops.get key c.map)
      then (none, record c { map = (ops.remove key c.map).1 })
      else if contains ops key c.map
      then (
        value_of (ops.get key (ops.to_back key c.map)),
        record c { map = ops.to_back key c.map },
      )
      else (none, c)

  unfoldable pub put : K → V → LruCache M → Option V × LruCache M
  unfolding insert_entry
  put key value = insert_entry key (fresh value)

  unfoldable pub put_with_ttl : ℕ → K → V → ℕ → LruCache M → Option V × LruCache M
  unfolding insert_entry
  put_with_ttl now key value ttl = insert_entry key (with_ttl now value ttl)

  unfoldable pub len : LruCache M → ℕ
  len c = ops.len c.map

  unfoldable pub contains_key : ℕ → K → LruCache M → Bool
  contains_key now key c = elim (ops.get key c.map) [
    | none ↦ false
    | some e ↦ not (is_expired now e)
  ]

  unfoldable pub peek : ℕ → K → LruCache M → Option V
  peek now key c = live_value now (ops.get key c.map)

  unfoldable pub remove : K → LruCache M → Option V × LruCache M
  remove key c = (value_of (ops.remove key c.map).0, record c { map = (ops.remove key c.map).1 })

  -- `LinkedHashMap::clear` leaves an empty map.
  unfoldable pub clear : LruCache M → LruCache M
  clear c = record c { map = ops.empty }

  -- The `while` loop of `resize`; every round removes an entry, so as many rounds as there are
  -- entries are enough.
  unfoldable pub shrink : ℕ → ℕ → M → M
  shrink zero cap m = m
  shrink (suc fuel) cap m =
      let rest = shrink fuel cap (ops.pop_front m).1 in
      if ltb 0 cap && ltb cap (ops.len m) then rest else m

  unfoldable pub resize : ℕ → LruCache M → LruCache M
  unfolding shrink
  resize new_cap c = record { map = shrink (ops.len c.map) new_cap c.map; cap = new_cap }

  unfoldable pub values : ℕ → LruCache M → List V
  values now c = map (λ kv. kv.1.value) (keep_if (λ kv. not (is_expired now kv.1)) (ops.iter c.map))

  -- The loop and the whole of `From<Vec<(K, V)>>`.
  unfoldable pub put_pairs : List (K × V) → LruCache M → LruCache M
  unfolding put
  put_pairs [] c = c
  put_pairs ((k, v) ∷ rest) c = put_pairs rest (put k v c).1

  unfoldable pub from : List (K × V) → LruCache M
  unfolding put_pairs new
  from pairs = put_pairs pairs (new (max (length pairs) 1))

  -- `impl Cache for LruCache`
  abbrev pub as_cache : Cache K V (LruCache M)
  as_cache = record {
    get = get;
    put = λ now. put;
    put_with_ttl = put_with_ttl;
    len = len;
    cap = λ c. c.cap;
    remove = remove;
    clear = clear;
    peek = peek;
    contains_key = contains_key;
    resize = resize;
    values = values;
  }
