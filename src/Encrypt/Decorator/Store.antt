-- ===== src/Encrypt/Decorator/Store.antt =====
-- `EncryptedKv` of crates/oxistore-encrypt/src/decorator.rs as a `KvStore`, its methods with an explicit
-- `CellId`, and its snapshots, `EncryptedSnapshot` of crates/oxistore-encrypt/src/snapshot.rs.
use oxistore.Common.{Option, none, some, List, Result, ok, err, map_ok, map_err}
use oxistore.Common.Bytes.{Bytes}
use oxistore.Core.Store.{StoreError, Exec, RangeItem, KvStore, KvSnapshot, lift, ◌>>=◌}
use oxistore.Encrypt.Errors.{EncryptError, store}
use oxistore.Encrypt.Keys.{key32}
use oxistore.Encrypt.Aead.{AeadKind, aead_of, decrypt_with_aead}
use oxistore.Encrypt.Cell.{CellId, encrypt_cell, decrypt_cell}
use oxistore.Encrypt.Decorator.{
  Parts, EncryptedKv, derive_cell_id, from_encrypt, decrypt_items, kind_of, on_inner, get, put,
  delete, flush, range, iter,
}
use oxistore.Encrypt.Decorator.Txn.{EncryptedTxn, as_txn}

module _ {S T K R : Type 0} (kv : KvStore S T) (parts : Parts K R) where
  unfoldable pub transaction : Exec (EncryptedKv S R) (EncryptedTxn T R)
  transaction = do
    inner_txn ← on_inner kv parts kv.transaction
    key ← lift (from_encrypt parts (key32 parts.provider parts.key_provider))
    (λ w.
        (ok (record { inner = inner_txn; key = key; aead = kind_of parts; random = w.random }), w))

  unfoldable pub as_store : KvStore (EncryptedKv S R) (EncryptedTxn T R)
  as_store = record {
    txn = as_txn kv.txn parts;
    get = get kv parts;
    put = put kv parts;
    delete = delete kv parts;
    range = range kv parts;
    iter = iter kv parts;
    transaction = transaction;
    commit = λ t. on_inner kv parts (kv.commit t.inner);
    rollback = λ t. on_inner kv parts (kv.rollback t.inner);
    flush = flush kv parts;
  }

  -- An error of the inner store, as an `EncryptError`.
  abbrev pub from_store : {A : Type 0} → Result StoreError A → Result EncryptError A
  from_store = map_err (λ e. store (parts.texts.store_text e))

  -- The result of `encrypt_cell` is stored, or its error returned.
  abbrev pub store_cell :
      Bytes
      → Result EncryptError Bytes
      → EncryptedKv S R
      → Result EncryptError (Unit {0}) × EncryptedKv S R
  store_cell key (ok ct) w =
      (from_store (kv.put key ct w.inner).0, record w { inner = (kv.put key ct w.inner).1 })
  store_cell key (err e) w = (err e, w)

  unfoldable pub put_cell :
      Bytes → CellId → Bytes → EncryptedKv S R → Result EncryptError (Unit {0}) × EncryptedKv S R
  put_cell key cell_id value w =
      let sealed =
        encrypt_cell parts.provider parts.ciphers.x_cha_cha20 parts.rng parts.key_provider cell_id
          value w.random in
      store_cell key sealed.0 (record w { random = sealed.1 })

  abbrev pub open_cell :
      CellId → Result EncryptError (Option Bytes) → Result EncryptError (Option Bytes)
  open_cell cell_id (err e) = err e
  open_cell cell_id (ok none) = ok none
  open_cell cell_id (ok (some ct)) =
      map_ok some
        (decrypt_cell parts.provider parts.ciphers.x_cha_cha20 parts.key_provider cell_id ct)

  unfoldable pub get_cell :
      Bytes → CellId → EncryptedKv S R → Result EncryptError (Option Bytes) × EncryptedKv S R
  get_cell key cell_id w = (
    open_cell cell_id (from_store (kv.get key w.inner).0),
    record w { inner = (kv.get key w.inner).1 },
  )

-- A snapshot of the inner store, with the key and the AEAD.
pub record EncryptedSnapshot (S : Type 0) : Type 0 where
  pub inner : S
  pub key : Bytes
  pub aead : AeadKind

module _ {S K R : Type 0} (snap : KvSnapshot S) (parts : Parts K R) where
  abbrev pub open_value :
      AeadKind → Bytes → Bytes → Result StoreError (Option Bytes) → Result StoreError (Option Bytes)
  open_value kind own key (err e) = err e
  open_value kind own key (ok none) = ok none
  open_value kind own key (ok (some ct)) = map_ok some (
      from_encrypt parts
        (decrypt_with_aead (aead_of parts.ciphers kind) own (derive_cell_id parts key) ct))

  abbrev pub open_items :
      AeadKind → Bytes → Result StoreError (List RangeItem) → Result StoreError (List RangeItem)
  open_items kind own (err e) = err e
  open_items kind own (ok raw_items) =
      decrypt_items parts (aead_of parts.ciphers kind) own raw_items

  unfoldable pub snapshot_get : EncryptedSnapshot S → Bytes → Result StoreError (Option Bytes)
  snapshot_get s key = open_value s.aead s.key key (snap.get s.inner key)

  unfoldable pub snapshot_range :
      EncryptedSnapshot S → Bytes → Bytes → Result StoreError (List RangeItem)
  snapshot_range s lo hi = open_items s.aead s.key (snap.range s.inner lo hi)

  unfoldable pub as_snapshot : KvSnapshot (EncryptedSnapshot S)
  as_snapshot = record { get = snapshot_get; range = snapshot_range }
