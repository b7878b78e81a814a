-- ===== src/Encrypt/Envelope/RoundTrip.antt =====
-- Encryption, decryption and re-wrapping together, over a cipher and a random generator that do what
-- their documentation says.
use oxistore.Common.{
  ℕ, ◌+◌, ◌≤◌, ◌<◌, ◌^◌, ◌≡◌, refl, ◌∙◌, false, some, ◌++◌, length, take, drop, ok, arith,
  take-append, drop-append, length-append,
}
use oxistore.Common.Bytes.{Bytes}
use oxistore.Encrypt.Errors.{Rng}
use oxistore.Encrypt.Keyring.{active_version, active_kek, kek_for_version}
use oxistore.Encrypt.Keyring.Versions.{IsKeyring, active-IsKeyring}
use oxistore.Encrypt.Envelope.{Aead, EnvelopeCipher, read, decrypt, to_le_bytes}
use oxistore.Encrypt.Envelope.Seal.{draw, encrypt}
use oxistore.Encrypt.Envelope.Layout.{opened, decrypt-join, length-to_le_bytes}

-- With a key of 32 bytes and a nonce of 24, a plaintext that is not too long is sealed, with a tag
-- of 16 bytes, and opened again; what opens had the tag.
pub record IsAead (cipher : Aead) : Type 0 where
  pub max_plaintext : ℕ
  pub dek_fits : 32 ≤ max_plaintext
  pub seal_opens :
      (key nonce aad plaintext : Bytes)
      → length key ≡ 32
      → length nonce ≡ 24
      → length plaintext ≤ max_plaintext
      → (ct : Bytes) × (cipher.seal key nonce aad plaintext ≡ ok ct)
        × (length ct ≡ length plaintext + 16)
        × (cipher.open_ key nonce aad ct ≡ ok plaintext)
  pub open_length :
      (key nonce aad ct plaintext : Bytes)
      → cipher.open_ key nonce aad ct ≡ ok plaintext
      → length ct ≡ length plaintext + 16

-- The generator works, and fills the whole buffer.
pub record IsRng {R : Type 0} (rng : Rng R) : Type 0 where
  pub starts : (r : R) → (rng.new_rng r).0 ≡ ok tt
  pub fills : (n : ℕ) (r : R) → (bs : Bytes) × ((rng.fill n r).0 ≡ ok bs) × (length bs ≡ n)

pub record IsCipher (c : EnvelopeCipher) : Type 0 where
  pub healthy : c.poisoned ≡ false
  pub ring : IsKeyring c.keyring

module _ {R : Type 0} (cipher : Aead) (rng : Rng R) (aead : IsAead cipher)
    (random : IsRng rng) where
  pub draw-length :
      (n : ℕ) (r : R)
      → (bs : Bytes) × (r' : R) × (draw cipher rng n r ≡ (ok bs, r')) × (length bs ≡ n)
  unfolding draw
  draw-length n r =
      let r1 : R = (rng.new_rng r).1 in
      let (bs, is_bs, long) = random.fills n r1 in
      (bs, (rng.fill n r1).1, ground (arith, random.starts r), long)

  pub read-ok : (c : EnvelopeCipher) → IsCipher c → read c ≡ ok c.keyring
  unfolding read
  read-ok c h = ground (arith, h.healthy)

  -- A run in which every draw and every call of the cipher succeeds.
  encrypt-runs :
      (c : EnvelopeCipher) (plaintext aad : Bytes) (r : R) (version : ℕ) (kek dek n1 n2 w d : Bytes)
      (r1 r2 r3 : R)
      → read c ≡ ok c.keyring
      → active_version c.keyring ≡ ok version
      → active_kek c.keyring ≡ ok kek
      → draw cipher rng 32 r ≡ (ok dek, r1)
      → draw cipher rng 24 r1 ≡ (ok n1, r2)
      → draw cipher rng 24 r2 ≡ (ok n2, r3)
      → cipher.seal kek n1 (to_le_bytes version) dek ≡ ok w
      → cipher.seal dek n2 aad plaintext ≡ ok d
      → encrypt cipher rng c plaintext aad r
        ≡ (ok (to_le_bytes version ++ (n1 ++ (w ++ (n2 ++ d)))), r3)
  unfolding encrypt
  encrypt-runs c plaintext aad r version kek dek n1 n2 w d r1 r2 r3 e1 e2 e3 e4 e5 e6 e7 e8 =
      rw (e1, e2, e3, e4, e5, e6, e7, e8) refl

  length-envelope :
      (version : ℕ) (n1 w n2 d : Bytes) (n : ℕ)
      → length n1 ≡ 24
      → length w ≡ 48
      → length n2 ≡ 24
      → length d ≡ n + 16
      → length (to_le_bytes version ++ (n1 ++ (w ++ (n2 ++ d)))) ≡ n + 116
  length-envelope version n1 w n2 d n h1 h2 h3 h4 = omega (
    arith,
    length-to_le_bytes version,
    length-append (to_le_bytes version) (n1 ++ (w ++ (n2 ++ d))),
    length-append n1 (w ++ (n2 ++ d)),
    length-append w (n2 ++ d),
    length-append n2 d,
  )

  pub opened-ok :
      (c : EnvelopeCipher) (version : ℕ) (n1 w n2 d aad kek dek plaintext : Bytes)
      → read c ≡ ok c.keyring
      → kek_for_version version c.keyring ≡ some kek
      → cipher.open_ kek n1 (to_le_bytes version) w ≡ ok dek
      → cipher.open_ dek n2 aad d ≡ ok plaintext
      → opened cipher c version n1 w n2 d aad ≡ ok plaintext
  opened-ok c version n1 w n2 d aad kek dek plaintext e1 e2 e3 e4 = rw (e1, e2, e3, e4) refl

  pub opens_body :
      (c : EnvelopeCipher) (version : ℕ) (n1 w body aad kek dek plaintext : Bytes)
      → IsCipher c
      → version < 2 ^ 32
      → length n1 ≡ 24
      → length w ≡ 48
      → 40 ≤ length body
      → kek_for_version version c.keyring ≡ some kek
      → cipher.open_ kek n1 (to_le_bytes version) w ≡ ok dek
      → cipher.open_ dek (take 24 body) aad (drop 24 body) ≡ ok plaintext
      → decrypt cipher c (to_le_bytes version ++ (n1 ++ (w ++ body))) aad ≡ ok plaintext
  opens_body c version n1 w body aad kek dek plaintext h small l1 l2 l3 e1 e2 e3 =
      decrypt-join cipher c version n1 w body aad small l1 l2 l3
      ∙ opened-ok c version n1 w (take 24 body) (drop 24 body) aad kek dek plaintext (read-ok c h)
          e1 e2 e3

  opens :
      (c : EnvelopeCipher) (version : ℕ) (n1 w n2 d aad kek dek plaintext : Bytes)
      → IsCipher c
      → version < 2 ^ 32
      → length n1 ≡ 24
      → length w ≡ 48
      → length n2 ≡ 24
      → 16 ≤ length d
      → kek_for_version version c.keyring ≡ some kek
      → cipher.open_ kek n1 (to_le_bytes version) w ≡ ok dek
      → cipher.open_ dek n2 aad d ≡ ok plaintext
      → decrypt cipher c (to_le_bytes version ++ (n1 ++ (w ++ (n2 ++ d)))) aad ≡ ok plaintext
  opens c version n1 w n2 d aad kek dek plaintext h small l1 l2 l3 l4 e1 e2 e3 =
      opens_body c version n1 w (n2 ++ d) aad kek dek plaintext h small l1 l2
        (omega (arith, length-append n2 d)) e1 e2
        (rw (take-append n2 d 24 l3, drop-append n2 d 24 l3) e3)

  -- An encryption, with the version in its header.
  pub encrypt-version :
      (c : EnvelopeCipher) (plaintext aad : Bytes) (r : R)
      → IsCipher c
      → length plaintext ≤ aead.max_plaintext
      → (env : Bytes) × (r' : R) × (encrypt cipher rng c plaintext aad r ≡ (ok env, r'))
        × (take 4 env ≡ to_le_bytes (length c.keyring.versions))
        × (length env ≡ length plaintext + 116)
        × (decrypt cipher c env aad ≡ ok plaintext)
  encrypt-version c plaintext aad r h fits =
      let version : ℕ = length c.keyring.versions in
      let (kek, is_version, is_kek, is_found, kek_long) = active-IsKeyring c.keyring h.ring in
      let (dek, r1, is_dek, dek_long) = draw-length 32 r in
      let (n1, r2, is_n1, n1_long) = draw-length 24 r1 in
      let (n2, r3, is_n2, n2_long) = draw-length 24 r2 in
      let (w, is_w, w_long, w_opens) =
        aead.seal_opens kek n1 (to_le_bytes version) dek kek_long n1_long
          (omega (arith, aead.dek_fits)) in
      let (d, is_d, d_long, d_opens) = aead.seal_opens dek n2 aad plaintext dek_long n2_long fits in
      let env : Bytes = to_le_bytes version ++ (n1 ++ (w ++ (n2 ++ d))) in
      (
        env,
        r3,
        encrypt-runs c plaintext aad r version kek dek n1 n2 w d r1 r2 r3 (read-ok c h) is_version
            is_kek is_dek is_n1 is_n2 is_w is_d,
        take-append (to_le_bytes version) (n1 ++ (w ++ (n2 ++ d))) 4 (length-to_le_bytes version),
        length-envelope version n1 w n2 d (length plaintext) n1_long (omega arith) n2_long d_long,
        opens c version n1 w n2 d aad kek dek plaintext h (omega (arith, h.ring.bounded)) n1_long
            (omega arith) n2_long (omega arith) is_found w_opens d_opens,
      )

  -- With an AEAD and a random generator that work as documented, and a keyring in order: `encrypt` of
  -- a plaintext that the AEAD takes succeeds and gives an envelope with 116 bytes more, which
  -- `decrypt` with the same associated data turns back into the plaintext.
  pub decrypt-encrypt :
      (c : EnvelopeCipher) (plaintext aad : Bytes) (r : R)
      → IsCipher c
      → length plaintext ≤ aead.max_plaintext
      → (env : Bytes) × (r' : R) × (encrypt cipher rng c plaintext aad r ≡ (ok env, r'))
        × (length env ≡ length plaintext + 116)
        × (decrypt cipher c env aad ≡ ok plaintext)
  decrypt-encrypt c plaintext aad r h fits =
      let (env, r', runs, header, long, opens) = encrypt-version c plaintext aad r h fits in
      (env, r', runs, long, opens)
