-- ===== src/Encrypt/Decorator.antt =====
-- `EncryptedKv` of crates/oxistore-encrypt/src/decorator.rs: a store that encrypts each value, with a
-- hash of its key as associated data. `transaction` and `snapshot` wrap those of the inner store.
pub mod Txn
pub mod Store
pub mod Refinement
pub mod Commit
pub mod Listing
use Prim.Native.String.{String}
use oxistore.Common.{
  ℕ, Option, none, some, List, [], ◌∷◌, ◌==◌, if◌then◌else◌, Result, ok, err, map_ok, map_err,
}
use oxistore.Common.Bytes.{Bytes}
use oxistore.Core.Store.{StoreError, other, Exec, RangeItem, KvStore, lift, pure, ◌>>=◌, ◌>>◌}
use oxistore.Encrypt.Errors as Errors
use oxistore.Encrypt.Errors.{EncryptError, Draw, Rng}
use oxistore.Encrypt.Keys.{KeyProvider, key32}
use oxistore.Encrypt.Aead.{
  Aead, AeadKind, x_cha_cha20_poly1305, aes_gcm_siv256, Ciphers, encrypt_with_aead,
  decrypt_with_aead,
}
use oxistore.Encrypt.Cell.{CellId, encrypt_cell, decrypt_cell}
use oxistore.Encrypt.Store.{Texts}

-- What a decorator is made with: its key provider, its AEAD, the ciphers and the hash function of
-- `oxicrypto`, the random generator, and the texts of errors.
pub record Parts (K R : Type 0) : Type 0 where
  pub provider : KeyProvider K
  pub key_provider : K
  pub aead : Aead
  pub ciphers : Ciphers
  pub blake3 : Bytes → Bytes
  pub rng : Rng R
  pub texts : Texts

-- The inner store, and the state of the random generator.
pub record EncryptedKv (S R : Type 0) : Type 0 where
  pub inner : S
  pub random : R

unfoldable pub derive_cell_id : {K R : Type 0} → Parts K R → Bytes → Bytes
derive_cell_id parts key_bytes = parts.blake3 key_bytes

-- `From<EncryptError> for StoreError`
abbrev pub from_encrypt : {K R A : Type 0} → Parts K R → Result EncryptError A → Result StoreError A
from_encrypt parts = map_err (λ e. other (parts.texts.encrypt_text e))

module _ {K R : Type 0} (parts : Parts K R) where
  unfoldable pub encrypt_value : Bytes → Bytes → Draw R Bytes
  encrypt_value aad plaintext r = elim (key32 parts.provider parts.key_provider) [
    | ok key ↦ encrypt_with_aead parts.aead parts.rng key aad plaintext r
    | err e ↦ (err e, r)
  ]

  unfoldable pub decrypt_value : Bytes → Bytes → Result EncryptError Bytes
  decrypt_value aad ciphertext = elim (key32 parts.provider parts.key_provider) [
    | ok key ↦ decrypt_with_aead parts.aead key aad ciphertext
    | err e ↦ err e
  ]

  -- What `get` makes of the value that the inner store gives.
  unfoldable pub read_value : Bytes → Option Bytes → Result StoreError (Option Bytes)
  read_value key none = ok none
  read_value key (some ct) =
      map_ok some (from_encrypt parts (decrypt_value (derive_cell_id parts key) ct))

  abbrev pub push :
      Bytes
      → Result StoreError Bytes
      → Result StoreError (List RangeItem)
      → Result StoreError (List RangeItem)
  push k (err e) rest = err e
  push k (ok pt) rest = map_ok (λ items. ok (k, pt) ∷ items) rest

  -- The loop of `range` and `iter`: the first error wins.
  unfoldable pub decrypt_items : Aead → Bytes → List RangeItem → Result StoreError (List RangeItem)
  decrypt_items aead key [] = ok []
  decrypt_items aead key (err e ∷ items) = err e
  decrypt_items aead key (ok (k, ct) ∷ items) =
      push k (from_encrypt parts (decrypt_with_aead aead key (derive_cell_id parts k) ct))
        (decrypt_items aead key items)

  -- The AEAD of a transaction or a snapshot, found by the length of the nonce.
  unfoldable pub kind_of : AeadKind
  kind_of = if parts.aead.nonce_len == 12 then aes_gcm_siv256 else x_cha_cha20_poly1305

module _ {S T K R : Type 0} (kv : KvStore S T) (parts : Parts K R) where
  abbrev pub on_inner : {A : Type 0} → Exec S A → Exec (EncryptedKv S R) A
  on_inner m w = ((m w.inner).0, record w { inner = (m w.inner).1 })

  abbrev pub on_random : {A : Type 0} → Draw R A → Exec (EncryptedKv S R) A
  on_random m w = (from_encrypt parts (m w.random).0, record w { random = (m w.random).1 })

  unfoldable pub get : Bytes → Exec (EncryptedKv S R) (Option Bytes)
  get key = do found ← on_inner (kv.get key); lift (read_value parts key found)

  unfoldable pub put : Bytes → Bytes → Exec (EncryptedKv S R) (Unit {0})
  put key value = do
    ct ← on_random (encrypt_value parts (derive_cell_id parts key) value)
    on_inner (kv.put key ct)

  unfoldable pub delete : Bytes → Exec (EncryptedKv S R) (Unit {0})
  delete key = on_inner (kv.delete key)

  unfoldable pub flush : Exec (EncryptedKv S R) (Unit {0})
  flush = on_inner kv.flush

  unfoldable pub range : Bytes → Bytes → Exec (EncryptedKv S R) (List RangeItem)
  range lo hi = do
    key_bytes ← lift (from_encrypt parts (key32 parts.provider parts.key_provider))
    raw_items ← on_inner (kv.range lo hi)
    lift (decrypt_items parts parts.aead key_bytes raw_items)

  unfoldable pub iter : Exec (EncryptedKv S R) (List RangeItem)
  iter = do
    key_bytes ← lift (from_encrypt parts (key32 parts.provider parts.key_provider))
    raw_items ← on_inner kv.iter
    lift (decrypt_items parts parts.aead key_bytes raw_items)
