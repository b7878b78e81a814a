-- ===== src/Encrypt/Aead/Sealing.antt =====
-- What is sealed under a fresh nonce opens again, for each of the two ciphers.
use oxistore.Common.{
  ℕ, ◌+◌, ◌≤◌, ◌≡◌, refl, ap, ◌++◌, length, ok, arith, take-append, drop-append, length-append,
}
use oxistore.Common.Bytes.{Bytes}
use oxistore.Encrypt.Errors.{Rng}
use oxistore.Encrypt.Envelope as Envelope
use oxistore.Encrypt.Envelope.{unauthentic}
use oxistore.Encrypt.Envelope.RoundTrip.{IsRng}
use oxistore.Encrypt.Aead.{
  Aead, seal_with, open_with, AeadKind, x_cha_cha20_poly1305, aes_gcm_siv256, Ciphers, aead_of,
  x_cha_cha20_poly1305_aead, aes_gcm_siv256_aead, encrypt_with_aead, decrypt_with_aead,
}

-- A cipher of `oxicrypto` with a nonce of the given length: with a key of 32 bytes, a plaintext that is
-- not too long is sealed, with a tag of 16 bytes, and opened again.
pub record IsCipherFor (nonce_len max_plaintext : ℕ) (cipher : Envelope.Aead) : Type 0 where
  pub seal_opens :
      (key nonce aad plaintext : Bytes)
      → length key ≡ 32
      → length nonce ≡ nonce_len
      → length plaintext ≤ max_plaintext
      → (ct : Bytes) × (cipher.seal key nonce aad plaintext ≡ ok ct)
        × (length ct ≡ length plaintext + 16)
        × (cipher.open_ key nonce aad ct ≡ ok plaintext)

-- The same of an implementation of the trait.
pub record IsSealing (max_plaintext : ℕ) (aead : Aead) : Type 0 where
  pub seal_opens :
      (key nonce aad plaintext : Bytes)
      → length key ≡ 32
      → length nonce ≡ aead.nonce_len
      → length plaintext ≤ max_plaintext
      → (ct : Bytes) × (aead.seal key nonce aad plaintext ≡ ok ct)
        × (length ct ≡ length plaintext + aead.tag_len)
        × (aead.open_ key nonce aad ct ≡ ok plaintext)

seal_with-opens :
    (nonce_len max_plaintext : ℕ) (cipher : Envelope.Aead)
    (is_cipher : IsCipherFor nonce_len max_plaintext cipher) (key nonce aad plaintext : Bytes)
    → length key ≡ 32
    → length nonce ≡ nonce_len
    → length plaintext ≤ max_plaintext
    → (ct : Bytes) × (seal_with nonce_len cipher key nonce aad plaintext ≡ ok ct)
      × (length ct ≡ length plaintext + 16)
      × (open_with nonce_len 16 cipher key nonce aad ct ≡ ok plaintext)
unfolding seal_with open_with
seal_with-opens nonce_len max_plaintext cipher is_cipher key nonce aad plaintext hk hn fits =
    let (ct, sealed, long, opens) = is_cipher.seal_opens key nonce aad plaintext hk hn fits in
    (ct, ground (arith, sealed), long, ground (arith, opens, long))

pub x_cha_cha20-IsSealing :
    (max_plaintext : ℕ) (cipher : Envelope.Aead)
    → IsCipherFor 24 max_plaintext cipher
    → IsSealing max_plaintext (x_cha_cha20_poly1305_aead cipher)
unfolding x_cha_cha20_poly1305_aead
x_cha_cha20-IsSealing max_plaintext cipher is_cipher = record {
  seal_opens = seal_with-opens 24 max_plaintext cipher is_cipher;
}

aes_gcm_siv-IsSealing :
    (max_plaintext : ℕ) (cipher : Envelope.Aead)
    → IsCipherFor 12 max_plaintext cipher
    → IsSealing max_plaintext (aes_gcm_siv256_aead cipher)
unfolding aes_gcm_siv256_aead
aes_gcm_siv-IsSealing max_plaintext cipher is_cipher = record {
  seal_opens = seal_with-opens 12 max_plaintext cipher is_cipher;
}

pub aead_of-IsSealing :
    (max_plaintext : ℕ) (ciphers : Ciphers)
    → IsCipherFor 24 max_plaintext ciphers.x_cha_cha20
    → IsCipherFor 12 max_plaintext ciphers.aes_gcm_siv
    → (kind : AeadKind) → IsSealing max_plaintext (aead_of ciphers kind)
unfolding aead_of
aead_of-IsSealing max_plaintext ciphers x aes x_cha_cha20_poly1305 =
    x_cha_cha20-IsSealing max_plaintext ciphers.x_cha_cha20 x
aead_of-IsSealing max_plaintext ciphers x aes aes_gcm_siv256 =
    aes_gcm_siv-IsSealing max_plaintext ciphers.aes_gcm_siv aes

module _ {R : Type 0} (max_plaintext : ℕ) (aead : Aead) (rng : Rng R)
    (is_sealing : IsSealing max_plaintext aead) (random : IsRng rng) where
  encrypt_with_aead-exact :
      (key aad pt nonce ct : Bytes) (r r1 r2 : R)
      → rng.new_rng r ≡ (ok tt, r1)
      → rng.fill aead.nonce_len r1 ≡ (ok nonce, r2)
      → aead.seal key nonce aad pt ≡ ok ct
      → encrypt_with_aead aead rng key aad pt r ≡ (ok (nonce ++ ct), r2)
  unfolding encrypt_with_aead
  encrypt_with_aead-exact key aad pt nonce ct r r1 r2 e1 e2 e3 = rw (e1, e2, e3) refl

  decrypt-append :
      (key aad nonce ct pt : Bytes)
      → length nonce ≡ aead.nonce_len
      → aead.tag_len ≤ length ct
      → aead.open_ key nonce aad ct ≡ ok pt
      → decrypt_with_aead aead key aad (nonce ++ ct) ≡ ok pt
  unfolding decrypt_with_aead
  decrypt-append key aad nonce ct pt hn long e = ground (
    arith,
    e,
    length-append nonce ct,
    take-append nonce ct aead.nonce_len hn,
    drop-append nonce ct aead.nonce_len hn,
  )

  pub decrypt-encrypt_with_aead :
      (key aad pt : Bytes) (r : R)
      → length key ≡ 32
      → length pt ≤ max_plaintext
      → (wire : Bytes) × (r' : R) × (encrypt_with_aead aead rng key aad pt r ≡ (ok wire, r'))
        × (length wire ≡ aead.nonce_len + length pt + aead.tag_len)
        × (decrypt_with_aead aead key aad wire ≡ ok pt)
  decrypt-encrypt_with_aead key aad pt r hk fits =
      let r1 : R = (rng.new_rng r).1 in
      let (nonce, filled, hn) = random.fills aead.nonce_len r1 in
      let (ct, sealed, long, opens) = is_sealing.seal_opens key nonce aad pt hk hn fits in
      (
        nonce ++ ct,
        (rng.fill aead.nonce_len r1).1,
        encrypt_with_aead-exact key aad pt nonce ct r r1 (rng.fill aead.nonce_len r1).1
            (ap (λ x. (x, r1)) (random.starts r))
            (ap (λ x. (x, (rng.fill aead.nonce_len r1).1)) filled) sealed,
        omega (arith, length-append nonce ct),
        decrypt-append key aad nonce ct pt hn (omega arith) opens,
      )
