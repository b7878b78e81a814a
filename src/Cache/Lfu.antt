-- ===== src/Cache/Lfu.antt =====
-- `LfuCache` of crates/oxistore-cache/src/lfu.rs. A `HashMap` is the list of its entries; the buckets
-- are `hashlink::LinkedHashMap`s, a parameter. What reads the clock takes the current time.
pub mod Buckets
pub mod Membership
pub mod Consistency
pub mod Eviction
pub mod Calls
pub mod Resize
use oxistore.Common.{
  ℕ, zero, suc, ◌+◌, Bool, true, false, ◌&&◌, Option, none, some, List, [], ◌∷◌, length, ltb, ◌==◌,
  if◌then◌else◌, ℕ_discrete, not, is_some,
}
use oxistore.Common.Assoc.{lookup, without}
use oxistore.Cache.Entry.{CacheEntry, fresh, with_ttl, is_expired, live_value}
use oxistore.Cache.LinkedMap.{LinkedHashMap}

-- `HashMap::insert`
abbrev pub set : {K V : Type 0} → Discrete K → K → V → List (K × V) → List (K × V)
set dec k v l = (k, v) ∷ without dec k l

pub record LfuCache (K V M : Type 0) : Type 0 where
  pub cap : ℕ
  pub min_freq : ℕ
  pub key_to_entry : List (K × (ℕ × CacheEntry V))
  pub freq_to_keys : List (ℕ × M)

unfoldable pub new : {K V M : Type 0} → ℕ → LfuCache K V M
new cap = record { cap = cap; min_freq = 0; key_to_entry = []; freq_to_keys = [] }

module _ {K M : Type 0} (ops : LinkedHashMap K (Unit {0}) M) where
  -- The bucket of a frequency changed; an empty one is removed.
  unfoldable pub store_bucket : ℕ → M → List (ℕ × M) → List (ℕ × M)
  store_bucket freq bucket buckets =
      if ops.len bucket == 0
      then without ℕ_discrete freq buckets
      else set ℕ_discrete freq bucket buckets

  unfoldable pub take_out : K → ℕ → List (ℕ × M) → List (ℕ × M)
  take_out key freq buckets = elim (lookup ℕ_discrete freq buckets) [
    | none ↦ buckets
    | some bucket ↦ store_bucket freq (ops.remove key bucket).1 buckets
  ]

  -- Whether `take_out` removes the bucket.
  unfoldable pub empties : K → ℕ → List (ℕ × M) → Bool
  empties key freq buckets = elim (lookup ℕ_discrete freq buckets) [
    | none ↦ false
    | some bucket ↦ ops.len (ops.remove key bucket).1 == 0
  ]

  -- `entry(freq).or_insert_with(..).insert(key, ())`
  unfoldable pub put_in : K → ℕ → List (ℕ × M) → List (ℕ × M)
  put_in key freq buckets = elim (lookup ℕ_discrete freq buckets) [
    | none ↦ set ℕ_discrete freq (ops.insert key tt ops.empty).1 buckets
    | some bucket ↦ set ℕ_discrete freq (ops.insert key tt bucket).1 buckets
  ]

module _ {K V M : Type 0} (dec : Discrete K) (ops : LinkedHashMap K (Unit {0}) M) where
  unfoldable pub increment_freq : K → LfuCache K V M → LfuCache K V M
  increment_freq key c = elim (lookup dec key c.key_to_entry) [
    | none ↦ c
    | some (old_freq, entry) ↦ record c {
      key_to_entry = set dec key (old_freq + 1, entry) c.key_to_entry;
      freq_to_keys = put_in ops key (old_freq + 1) (take_out ops key old_freq c.freq_to_keys);
      min_freq =
          if empties ops key old_freq c.freq_to_keys && old_freq == c.min_freq
          then old_freq + 1
          else c.min_freq;
    }
  ]

  -- The entry of an evicted key removed.
  unfoldable pub drop_entry : K → LfuCache K V M → Option V × LfuCache K V M
  drop_entry key c = elim (lookup dec key c.key_to_entry) [
    | none ↦ (none, c)
    | some (freq, entry) ↦
        (some entry.value, record c { key_to_entry = without dec key c.key_to_entry })
  ]

  abbrev pub evict_front : Option (K × Unit {0}) × M → LfuCache K V M → Option V × LfuCache K V M
  evict_front (none, bucket) c =
      (none, record c { freq_to_keys = set ℕ_discrete c.min_freq bucket c.freq_to_keys })
  evict_front (some (evict_key, u), bucket) c =
      drop_entry evict_key
        (record c { freq_to_keys = store_bucket ops c.min_freq bucket c.freq_to_keys })

  unfoldable pub evict : LfuCache K V M → Option V × LfuCache K V M
  evict c = elim (lookup ℕ_discrete c.min_freq c.freq_to_keys) [
    | none ↦ (none, c)
    | some bucket ↦ evict_front (ops.pop_front bucket) c
  ]

  unfoldable pub insert_new : K → CacheEntry V → LfuCache K V M → LfuCache K V M
  insert_new key entry c = record c {
    key_to_entry = set dec key (1, entry) c.key_to_entry;
    freq_to_keys = put_in ops key 1 c.freq_to_keys;
    min_freq = 1;
  }

  -- A new entry for a key that is present keeps its frequency.
  unfoldable pub replace_entry : K → CacheEntry V → LfuCache K V M → LfuCache K V M
  replace_entry key entry c = elim (lookup dec key c.key_to_entry) [
    | none ↦ c
    | some (freq, old) ↦ record c { key_to_entry = set dec key (freq, entry) c.key_to_entry }
  ]

  unfoldable pub insert_entry : K → CacheEntry V → LfuCache K V M → Option V × LfuCache K V M
  insert_entry key entry c =
      if c.cap == 0
      then (some entry.value, c)
      else if is_some (lookup dec key c.key_to_entry)
      then (none, increment_freq key (replace_entry key entry c))
      else if ltb (length c.key_to_entry) c.cap
      then (none, insert_new key entry c)
      else ((evict c).0, insert_new key entry (evict c).1)

  unfoldable pub remove : K → LfuCache K V M → Option V × LfuCache K V M
  remove key c = elim (lookup dec key c.key_to_entry) [
    | none ↦ (none, c)
    | some (freq, entry) ↦ (
      some entry.value,
      record c {
        key_to_entry = without dec key c.key_to_entry;
        freq_to_keys = take_out ops key freq c.freq_to_keys;
      },
    )
  ]

  -- A hit counts, and an expired entry is removed.
  unfoldable pub get : ℕ → K → LfuCache K V M → Option V × LfuCache K V M
  get now key c = elim (lookup dec key c.key_to_entry) [
    | none ↦ (none, c)
    | some (freq, entry) ↦
        if is_expired now entry
        then (none, (remove key c).1)
        else (some entry.value, increment_freq key c)
  ]

  unfoldable pub put : K → V → LfuCache K V M → Option V × LfuCache K V M
  put key value = insert_entry key (fresh value)

  unfoldable pub put_with_ttl : ℕ → K → V → ℕ → LfuCache K V M → Option V × LfuCache K V M
  put_with_ttl now key value ttl = insert_entry key (with_ttl now value ttl)

  unfoldable pub peek : ℕ → K → LfuCache K V M → Option V
  peek now key c = elim (lookup dec key c.key_to_entry) [
    | none ↦ none
    | some (freq, entry) ↦ if is_expired now entry then none else some entry.value
  ]

  unfoldable pub clear : LfuCache K V M → LfuCache K V M
  clear c = record c { key_to_entry = []; freq_to_keys = []; min_freq = 0 }

  abbrev pub is_over : LfuCache K V M → Bool
  is_over c = ltb 0 c.cap && ltb c.cap (length c.key_to_entry)

  -- The loop of `resize`, or `none` when it has not ended after so many rounds.
  unfoldable pub shrink : ℕ → LfuCache K V M → Option (LfuCache K V M)
  shrink zero c = if is_over c then none else some c
  shrink (suc rounds) c = let rest = shrink rounds (evict c).1 in if is_over c then rest else some c

  unfoldable pub resize : ℕ → ℕ → LfuCache K V M → Option (LfuCache K V M)
  resize rounds new_cap c = shrink rounds (record c { cap = new_cap })
