-- ===== src/Encrypt/Aead.antt =====
-- The `Aead` trait of crates/oxistore-encrypt/src/aead.rs, its implementations, and the helpers that put
-- a fresh nonce before a ciphertext. The ciphers of `oxicrypto` are parameters, which return what they
-- write into their output buffers.
pub mod Sealing
use oxistore.Common.{
  ℕ, ◌+◌, ◌++◌, length, take, drop, ltb, ◌==◌, if◌then◌else◌, Result, ok, err, map_err,
}
use oxistore.Common.Bytes.{Bytes}
use oxistore.Encrypt.Errors.{
  EncryptError, ciphertext_too_short, authentication_failed, rng_failed, Draw, Rng, lift, ◌>>=◌,
  ◌>>◌,
}
use oxistore.Encrypt.Envelope as Envelope
use oxistore.Encrypt.Envelope.{unauthentic}
use oxistore.Encrypt.Envelope.Seal.{draw}

-- `seal key nonce aad pt`, `open key nonce aad ct`
pub record Aead : Type 0 where
  pub nonce_len : ℕ
  pub tag_len : ℕ
  pub seal : Bytes → Bytes → Bytes → Bytes → Result EncryptError Bytes
  pub open_ : Bytes → Bytes → Bytes → Bytes → Result EncryptError Bytes

-- `seal` and `open` of the two implementations, which differ in the length of the nonce.
unfoldable pub seal_with :
    ℕ → Envelope.Aead → Bytes → Bytes → Bytes → Bytes → Result EncryptError Bytes
seal_with nonce_len cipher key nonce aad pt =
    if length nonce == nonce_len
    then unauthentic (cipher.seal key nonce aad pt)
    else err (ciphertext_too_short nonce_len (length nonce))

unfoldable pub open_with :
    ℕ → ℕ → Envelope.Aead → Bytes → Bytes → Bytes → Bytes → Result EncryptError Bytes
open_with nonce_len tag_len cipher key nonce aad ct =
    if ltb (length ct) tag_len
    then err (ciphertext_too_short tag_len (length ct))
    else if length nonce == nonce_len
    then unauthentic (cipher.open_ key nonce aad ct)
    else err (ciphertext_too_short nonce_len (length nonce))

unfoldable pub x_cha_cha20_poly1305_aead : Envelope.Aead → Aead
x_cha_cha20_poly1305_aead cipher = record {
  nonce_len = 24;
  tag_len = 16;
  seal = seal_with 24 cipher;
  open_ = open_with 24 16 cipher;
}

unfoldable pub aes_gcm_siv256_aead : Envelope.Aead → Aead
aes_gcm_siv256_aead cipher = record {
  nonce_len = 12;
  tag_len = 16;
  seal = seal_with 12 cipher;
  open_ = open_with 12 16 cipher;
}

pub data AeadKind : Type 0 where
  x_cha_cha20_poly1305 aes_gcm_siv256 : AeadKind

-- The two ciphers of `oxicrypto`.
pub record Ciphers : Type 0 where
  pub x_cha_cha20 : Envelope.Aead
  pub aes_gcm_siv : Envelope.Aead

unfoldable pub aead_of : Ciphers → AeadKind → Aead
aead_of ciphers x_cha_cha20_poly1305 = x_cha_cha20_poly1305_aead ciphers.x_cha_cha20
aead_of ciphers aes_gcm_siv256 = aes_gcm_siv256_aead ciphers.aes_gcm_siv

module _ {R : Type 0} (aead : Aead) (rng : Rng R) where
  unfoldable pub encrypt_with_aead : Bytes → Bytes → Bytes → Draw R Bytes
  encrypt_with_aead key aad pt = do
    (λ r. (map_err (λ e. rng_failed) (rng.new_rng r).0, (rng.new_rng r).1))
    nonce ← (λ r.
        (map_err (λ e. rng_failed) (rng.fill aead.nonce_len r).0, (rng.fill aead.nonce_len r).1))
    ct_with_tag ← lift (aead.seal key nonce aad pt)
    lift (ok (nonce ++ ct_with_tag))

unfoldable pub decrypt_with_aead : Aead → Bytes → Bytes → Bytes → Result EncryptError Bytes
decrypt_with_aead aead key aad wire =
    let min_len = aead.nonce_len + aead.tag_len in
    if ltb (length wire) min_len
    then err (ciphertext_too_short min_len (length wire))
    else aead.open_ key (take aead.nonce_len wire) aad (drop aead.nonce_len wire)
