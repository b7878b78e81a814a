-- ===== src/Cache/Entry.antt =====
-- `CacheEntry` of crates/oxistore-cache/src/lib.rs. An `Instant` is a number of ticks, and the
-- current time is an argument of what reads the clock.
use oxistore.Common.{ℕ, ◌+◌, Bool, true, false, Option, none, some, leb}

pub record CacheEntry (V : Type 0) : Type 0 where
  pub value : V
  pub expires_at : Option ℕ

abbrev pub fresh : {V : Type 0} → V → CacheEntry V
fresh value = record { value = value; expires_at = none }

abbrev pub with_ttl : {V : Type 0} → ℕ → V → ℕ → CacheEntry V
with_ttl now value ttl = record { value = value; expires_at = some (now + ttl) }

abbrev pub is_expired : {V : Type 0} → ℕ → CacheEntry V → Bool
is_expired now e = elim e.expires_at [ none ↦ false | some deadline ↦ leb deadline now ]

-- `and_then(|e| if e.is_expired() { None } else { Some(&e.value) })`
abbrev pub live_value : {V : Type 0} → ℕ → Option (CacheEntry V) → Option V
live_value now none = none
live_value now (some e) = elim (is_expired now e) [ true ↦ none | false ↦ some e.value ]

-- `map(|e| e.is_expired()).unwrap_or(false)`
abbrev pub holds_expired : {V : Type 0} → ℕ → Option (CacheEntry V) → Bool
holds_expired now none = false
holds_expired now (some e) = is_expired now e

abbrev pub value_of : {V : Type 0} → Option (CacheEntry V) → Option V
value_of none = none
value_of (some e) = some e.value
