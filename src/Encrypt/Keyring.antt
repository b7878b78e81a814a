-- ===== src/Encrypt/Keyring.antt =====
-- `Keyring` of crates/oxistore-encrypt/src/keyring.rs.
pub mod Versions
use mathlib.Core.Option
use oxistore.Common.{
  ℕ, ◌+◌, ◌%◌, ◌^◌, Option, none, some, List, [], ◌∷◌, ◌++◌, map, ◌==◌, if◌then◌else◌, Result, ok,
  err, ok_or,
}
use oxistore.Common.Bytes.{Bytes}
use oxistore.Encrypt.Errors.{EncryptError, keyring_empty}

pub record KeyVersion : Type 0 where
  pub version : ℕ
  pub kek : Bytes

pub record Keyring : Type 0 where
  pub versions : List KeyVersion

-- `slice::last`
unfoldable pub last : {A : Type 0} → List A → Option A
last [] = none
last (x ∷ xs) = let rest = last xs in elim rest [ none ↦ some x | some y ↦ some y ]

-- `iter().find(|kv| kv.version == version)`
unfoldable pub find : ℕ → List KeyVersion → Option KeyVersion
find version [] = none
find version (kv ∷ kvs) =
    let rest = find version kvs in if kv.version == version then some kv else rest

unfoldable pub new : Bytes → Keyring
new kek = record { versions = (record { version = 1; kek = kek }) ∷ [] }

unfoldable pub active_version : Keyring → Result EncryptError ℕ
active_version ring = ok_or (Option.map (λ kv. kv.version) (last ring.versions)) keyring_empty

unfoldable pub active_kek : Keyring → Result EncryptError Bytes
active_kek ring = ok_or (Option.map (λ kv. kv.kek) (last ring.versions)) keyring_empty

unfoldable pub kek_for_version : ℕ → Keyring → Option Bytes
kek_for_version version ring = Option.map (λ kv. kv.kek) (find version ring.versions)

-- The `?` of `rotate`; the version is a `u32`.
abbrev pub push_version : Bytes → Result EncryptError ℕ → Keyring → Result EncryptError ℕ × Keyring
push_version new_kek (err e) ring = (err e, ring)
push_version new_kek (ok v) ring =
    let next_version = (v + 1) % 2 ^ 32 in
    (
      ok next_version,
      record {
        versions = ring.versions ++ (record { version = next_version; kek = new_kek }) ∷ [];
      },
    )

unfoldable pub rotate : Bytes → Keyring → Result EncryptError ℕ × Keyring
rotate new_kek ring = push_version new_kek (active_version ring) ring

unfoldable pub version_numbers : Keyring → List ℕ
version_numbers ring = map (λ kv. kv.version) ring.versions
