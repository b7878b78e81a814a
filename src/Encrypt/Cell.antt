-- ===== src/Encrypt/Cell.antt =====
-- `CellId`, `encrypt_cell` and `decrypt_cell` of crates/oxistore-encrypt/src/cell.rs. The fields of a
-- `CellId` are numbers below 2^64, 2^64 and 2^32.
pub mod Identity
pub mod RoundTrip
use oxistore.Common.{
  ℕ, ◌+◌, ◌/◌, ◌%◌, List, [], ◌∷◌, ◌++◌, length, take, drop, ltb, ◌==◌, if◌then◌else◌, Result, ok,
  err, map_err, zero, suc,
}
use oxistore.Common.Bytes.{Bytes}
use oxistore.Encrypt.Errors.{
  EncryptError, ciphertext_too_short, rng_failed, Draw, Rng, lift, ◌>>=◌, ◌>>◌,
}
use oxistore.Encrypt.Keys.{KeyProvider, key32}
use oxistore.Encrypt.Envelope.{Aead, unauthentic}

abbrev pub nonce_len : ℕ
nonce_len = 24

abbrev pub tag_len : ℕ
tag_len = 16

abbrev pub min_ciphertext_len : ℕ
min_ciphertext_len = nonce_len + tag_len

pub record CellId : Type 0 where
  pub table_id : ℕ
  pub row_id : ℕ
  pub col_id : ℕ

-- `to_le_bytes` of an integer of the given number of bytes
unfoldable pub le_bytes : ℕ → ℕ → Bytes
le_bytes zero n = []
le_bytes (suc width) n = n % 256 ∷ le_bytes width (n / 256)

unfoldable pub to_aad_bytes : CellId → Bytes
to_aad_bytes id = le_bytes 8 id.table_id ++ (le_bytes 8 id.row_id ++ le_bytes 4 id.col_id)

module _ {K R : Type 0} (provider : KeyProvider K) (cipher : Aead) (rng : Rng R) where
  unfoldable pub encrypt_cell : K → CellId → Bytes → Draw R Bytes
  encrypt_cell k cell_id plaintext = do
    key ← lift (key32 provider k)
    (λ r. (map_err (λ e. rng_failed) (rng.new_rng r).0, (rng.new_rng r).1))
    nonce ← (λ r. (map_err (λ e. rng_failed) (rng.fill nonce_len r).0, (rng.fill nonce_len r).1))
    sealed ← lift (unauthentic (cipher.seal key nonce (to_aad_bytes cell_id) plaintext))
    lift (ok (nonce ++ sealed))

unfoldable pub decrypt_cell :
    {K : Type 0} → KeyProvider K → Aead → K → CellId → Bytes → Result EncryptError Bytes
decrypt_cell provider cipher k cell_id wire =
    if ltb (length wire) min_ciphertext_len
    then err (ciphertext_too_short min_ciphertext_len (length wire))
    else elim (key32 provider k) [
      | err e ↦ err e
      | ok key ↦
          unauthentic
            (cipher.open_ key (take nonce_len wire) (to_aad_bytes cell_id) (drop nonce_len wire))
    ]
