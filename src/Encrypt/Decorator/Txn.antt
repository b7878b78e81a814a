-- ===== src/Encrypt/Decorator/Txn.antt =====
-- `EncryptedTxn` of crates/oxistore-encrypt/src/txn.rs. A transaction draws from a generator of its
-- own.
use oxistore.Common.{Option, none, some, Result, ok, map_ok}
use oxistore.Common.Bytes.{Bytes}
use oxistore.Core.Store.{StoreError, Exec, KvTxn, ◌>>=◌}
use oxistore.Encrypt.Errors.{Draw}
use oxistore.Encrypt.Aead.{AeadKind, aead_of, encrypt_with_aead, decrypt_with_aead}
use oxistore.Encrypt.Decorator.{Parts, derive_cell_id, from_encrypt}

pub record EncryptedTxn (T R : Type 0) : Type 0 where
  pub inner : T
  pub key : Bytes
  pub aead : AeadKind
  pub random : R

module _ {T K R : Type 0} (txn : KvTxn T) (parts : Parts K R) where
  abbrev pub on_inner : {A : Type 0} → Exec T A → Exec (EncryptedTxn T R) A
  on_inner m t = ((m t.inner).0, record t { inner = (m t.inner).1 })

  abbrev pub on_random : {A : Type 0} → Draw R A → Exec (EncryptedTxn T R) A
  on_random m t = (from_encrypt parts (m t.random).0, record t { random = (m t.random).1 })

  -- What `get` makes of the value that the inner transaction gives.
  unfoldable pub read_value :
      AeadKind → Bytes → Bytes → Option Bytes → Result StoreError (Option Bytes)
  read_value kind own key none = ok none
  read_value kind own key (some ct) = map_ok some (
      from_encrypt parts
        (decrypt_with_aead (aead_of parts.ciphers kind) own (derive_cell_id parts key) ct))

  unfoldable pub get : Bytes → Exec (EncryptedTxn T R) (Option Bytes)
  get key = do found ← on_inner (txn.get key); (λ t. (read_value t.aead t.key key found, t))

  unfoldable pub put : Bytes → Bytes → Exec (EncryptedTxn T R) (Unit {0})
  put key value = do
    ct ← (λ t.
        on_random
          (encrypt_with_aead (aead_of parts.ciphers t.aead) parts.rng t.key
            (derive_cell_id parts key) value)
          t)
    on_inner (txn.put key ct)

  unfoldable pub delete : Bytes → Exec (EncryptedTxn T R) (Unit {0})
  delete key = on_inner (txn.delete key)

  unfoldable pub as_txn : KvTxn (EncryptedTxn T R)
  as_txn = record { get = get; put = put; delete = delete }
