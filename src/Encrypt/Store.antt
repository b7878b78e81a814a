-- ===== src/Encrypt/Store.antt =====
-- `EncryptedKvEnvelope` of crates/oxistore-encrypt/src/envelope.rs: a store that keeps an envelope for
-- each value, with the key as associated data. The texts of errors are parameters.
pub mod Entries
pub mod Rounds
pub mod Rotation
use Prim.Native.String.{String}
use oxistore.Common.{
  ℕ, ◌+◌, Option, none, some, List, [], ◌∷◌, map, Result, ok, err, map_ok, map_err, collect,
}
use oxistore.Common.Bytes.{Bytes}
use oxistore.Core.Store.{StoreError, other, Exec, KvStore, lift, pure, ◌>>=◌, ◌>>◌}
use oxistore.Encrypt.Errors.{EncryptError, Rng}
use oxistore.Encrypt.Envelope.{Aead, EnvelopeCipher, decrypt, add_kek_version}
use oxistore.Encrypt.Envelope.Seal.{encrypt, rewrap_envelope}

-- The decorator, and the state of the random generator.
pub record EncryptedKvEnvelope (S R : Type 0) : Type 0 where
  pub inner : S
  pub cipher : EnvelopeCipher
  pub random : R

-- `e.to_string()`
pub record Texts : Type 0 where
  pub encrypt_text : EncryptError → String
  pub store_text : StoreError → String

module _ {S T R : Type 0} (store : KvStore S T) (aead : Aead) (rng : Rng R) (texts : Texts) where
  abbrev pub on_inner : {A : Type 0} → Exec S A → Exec (EncryptedKvEnvelope S R) A
  on_inner m w = ((m w.inner).0, record w { inner = (m w.inner).1 })

  -- `From<EncryptError> for StoreError`
  abbrev pub from_encrypt : {A : Type 0} → Result EncryptError A → Result StoreError A
  from_encrypt = map_err (λ e. other (texts.encrypt_text e))

  abbrev pub from_store : {A : Type 0} → Result StoreError A → Result StoreError A
  from_store = map_err (λ e. other (texts.store_text e))

  -- What `get` makes of the value that the inner store gives.
  unfoldable pub read_value :
      EnvelopeCipher → Bytes → Option Bytes → Result StoreError (Option Bytes)
  read_value c key none = ok none
  read_value c key (some ct) = map_ok some (from_encrypt (decrypt aead c ct key))

  unfoldable pub get : Bytes → Exec (EncryptedKvEnvelope S R) (Option Bytes)
  get key = do found ← on_inner (store.get key); (λ w. (read_value w.cipher key found, w))

  unfoldable pub put : Bytes → Bytes → Exec (EncryptedKvEnvelope S R) (Unit {0})
  put key value = do
    ct ← (λ w. (
      from_encrypt (encrypt aead rng w.cipher value key w.random).0,
      record w { random = (encrypt aead rng w.cipher value key w.random).1 },
    ))
    on_inner (store.put key ct)

  -- One round of the loop of `rotate_kek`.
  unfoldable pub rotate_entry : Bytes → Bytes → Exec (EncryptedKvEnvelope S R) (Unit {0})
  rotate_entry key old_envelope = do
    new_envelope ← (λ w. (
      from_encrypt (rewrap_envelope aead rng w.cipher old_envelope w.random).0,
      record w { random = (rewrap_envelope aead rng w.cipher old_envelope w.random).1 },
    ))
    on_inner (store.put key new_envelope)

  unfoldable pub rotate_entries : List (Bytes × Bytes) → ℕ → Exec (EncryptedKvEnvelope S R) ℕ
  rotate_entries [] count = pure count
  rotate_entries ((key, old_envelope) ∷ entries) count = do
    rotate_entry key old_envelope
    rotate_entries entries (count + 1)

  unfoldable pub rotate_kek : Bytes → Exec (EncryptedKvEnvelope S R) ℕ
  rotate_kek new_kek = do
    items ← (λ w. (from_store (store.iter w.inner).0, record w { inner = (store.iter w.inner).1 }))
    entries ← lift (collect (map from_store items))
    (λ w. (
      from_encrypt (add_kek_version new_kek w.cipher).0,
      record w { cipher = (add_kek_version new_kek w.cipher).1 },
    ))
    rotate_entries entries 0
