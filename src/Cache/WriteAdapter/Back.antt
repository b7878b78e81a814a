-- ===== src/Cache/WriteAdapter/Back.antt =====
-- `WriteBackCache` of crates/oxistore-cache/src/write_adapter.rs. The set of dirty keys is the list of
-- its members, in the order in which it is iterated.
pub mod Dirty
pub mod Flushing
pub mod Puts
pub mod Coherence
use oxistore.Common.{
  ℕ, Bool, true, false, Option, none, some, List, [], ◌∷◌, ltb, ok, if◌then◌else◌,
}
use oxistore.Common.Bytes.{Bytes, bytes_dec}
use oxistore.Core.Store.{Exec, KvStore, pure, ◌>>=◌, ◌>>◌}
use oxistore.Cache.Trait.{Cache}

pub record WriteBackCache (S C : Type 0) : Type 0 where
  pub store : S
  pub cache : C
  pub dirty : List Bytes

-- `HashSet::contains`, `insert`, `remove`
unfoldable pub is_dirty : Bytes → List Bytes → Bool
is_dirty k [] = false
is_dirty k (j ∷ js) =
    let rest = is_dirty k js in elim (bytes_dec j k) [ yes p ↦ true | no p ↦ rest ]

unfoldable pub mark : Bytes → List Bytes → List Bytes
mark k js = if is_dirty k js then js else k ∷ js

unfoldable pub unmark : Bytes → List Bytes → List Bytes
unmark k [] = []
unmark k (j ∷ js) =
    let rest = unmark k js in elim (bytes_dec j k) [ yes p ↦ rest | no p ↦ j ∷ rest ]

module _ {S T C : Type 0} (kv : KvStore S T) (policy : Cache Bytes Bytes C) where
  abbrev pub on_store : {A : Type 0} → Exec S A → Exec (WriteBackCache S C) A
  on_store m w = ((m w.store).0, record w { store = (m w.store).1 })

  abbrev pub on_cache : {A : Type 0} → (C → A × C) → Exec (WriteBackCache S C) A
  on_cache f w = (ok (f w.cache).0, record w { cache = (f w.cache).1 })

  -- One round of the loops of `flush` and `flush_if_eviction_imminent`.
  abbrev pub write_cached : Bytes → Option Bytes → Exec (WriteBackCache S C) (Unit {0})
  write_cached key none = pure tt
  write_cached key (some val) = on_store (kv.put key val)

  unfoldable pub flush_keys : ℕ → List Bytes → Exec (WriteBackCache S C) (Unit {0})
  flush_keys now [] = pure tt
  flush_keys now (key ∷ keys) = do
    (λ w. write_cached key (policy.peek now key w.cache) w)
    flush_keys now keys

  unfoldable pub flush : ℕ → Exec (WriteBackCache S C) (Unit {0})
  flush now = do (λ w. flush_keys now w.dirty w); (λ w. (ok tt, record w { dirty = [] }))

  unfoldable pub flush_if_eviction_imminent : ℕ → Bytes → Exec (WriteBackCache S C) (Unit {0})
  flush_if_eviction_imminent now incoming_key w =
      if policy.contains_key now incoming_key w.cache
      then (ok tt, w)
      else if ltb (policy.len w.cache) (policy.cap w.cache)
      then (ok tt, w)
      else flush_keys now w.dirty w

  abbrev pub on_hit_or : Bytes → Option Bytes → Exec (WriteBackCache S C) (Option Bytes)
  on_hit_or key (some v) = pure (some v)
  on_hit_or key none = on_store (kv.get key)

  unfoldable pub get : ℕ → Bytes → Exec (WriteBackCache S C) (Option Bytes)
  get now key = do hit ← on_cache (policy.get now key); on_hit_or key hit

  unfoldable pub put : ℕ → Bytes → Bytes → Exec (WriteBackCache S C) (Unit {0})
  put now key value = do
    flush_if_eviction_imminent now key
    (λ w. (ok tt, record w { dirty = mark key w.dirty }))
    on_cache (policy.put now key value)
    pure tt

  unfoldable pub remove : Bytes → Exec (WriteBackCache S C) (Unit {0})
  remove key = do
    on_cache (policy.remove key)
    (λ w. (ok tt, record w { dirty = unmark key w.dirty }))
    on_store (kv.delete key)
    pure tt
