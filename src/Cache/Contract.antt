-- ===== src/Cache/Contract.antt =====
-- What the clients of a `Cache` rely on, as laws over `peek`, which changes nothing. Entries expire, so
-- a law speaks of the time of the call and of any later time.
use oxistore.Common.{ℕ, ◌≤◌, ◌<◌, ◌≡◌, ◌≢◌, true, none, some}
use oxistore.Cache.Trait.{Cache}

-- A cache may drop any entry at any call, but it never changes a value.
pub record IsCache {K V C : Type 0} (cache : Cache K V C) : Type 0 where
  pub get_hit :
      (now : ℕ) (k : K) (v : V) (c : C)
      → (cache.get now k c).0 ≡ some v
      → cache.peek now k c ≡ some v
  pub peek-get :
      (now later : ℕ) (k q : K) (v : V) (c : C)
      → now ≤ later
      → cache.peek later q (cache.get now k c).1 ≡ some v
      → cache.peek later q c ≡ some v
  pub peek-put_self :
      (now later : ℕ) (k : K) (v w : V) (c : C)
      → cache.peek later k (cache.put now k v c).1 ≡ some w
      → w ≡ v
  pub peek-put_ne :
      (now later : ℕ) (k q : K) (v w : V) (c : C)
      → k ≢ q
      → cache.peek later q (cache.put now k v c).1 ≡ some w
      → cache.peek later q c ≡ some w
  pub peek-remove_self : (now : ℕ) (k : K) (c : C) → cache.peek now k (cache.remove k c).1 ≡ none
  pub peek-remove_ne :
      (now : ℕ) (k q : K) (v : V) (c : C)
      → cache.peek now q (cache.remove k c).1 ≡ some v
      → cache.peek now q c ≡ some v

-- A cache that takes every value, and drops live entries only in a `put` of a new key when it is full.
pub record IsRetaining {K V C : Type 0} (cache : Cache K V C) : Type 0 where
  pub get_result : (now : ℕ) (k : K) (c : C) → (cache.get now k c).0 ≡ cache.peek now k c
  pub get_keeps :
      (now later : ℕ) (k q : K) (c : C)
      → now ≤ later
      → cache.peek later q (cache.get now k c).1 ≡ cache.peek later q c
  pub put_takes :
      (now later : ℕ) (k : K) (v : V) (c : C) → cache.peek later k (cache.put now k v c).1 ≡ some v
  pub put_update :
      (now later : ℕ) (k q : K) (v : V) (c : C)
      → k ≢ q
      → cache.contains_key now k c ≡ true
      → cache.peek later q (cache.put now k v c).1 ≡ cache.peek later q c
  pub put_room :
      (now later : ℕ) (k q : K) (v : V) (c : C)
      → k ≢ q
      → cache.len c < cache.cap c
      → cache.peek later q (cache.put now k v c).1 ≡ cache.peek later q c
  pub remove_keeps :
      (now : ℕ) (k q : K) (c : C)
      → k ≢ q
      → cache.peek now q (cache.remove k c).1 ≡ cache.peek now q c
