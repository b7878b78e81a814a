-- ===== src/Encrypt/Envelope/Found.antt =====
-- The parts of an envelope that can be decrypted.
use oxistore.Common.{
  ℕ, ◌≤◌, ◌<◌, ◌^◌, ◌≡◌, sym, ap, ◌∙◌, some, length, take, drop, Result, ok, arith, Option-cases,
  Result-cases, inl, inr, Bool-cases, ltb,
}
use oxistore.Common.Bytes.{Bytes}
use oxistore.Encrypt.Errors.{Rng}
use oxistore.Encrypt.Keyring.{active_kek, kek_for_version}
use oxistore.Encrypt.Keyring.Versions.{active-IsKeyring}
use oxistore.Encrypt.Envelope.{
  Aead, EnvelopeCipher, read, decrypt, to_le_bytes, from_le_bytes, slice, min_envelope_len,
}
use oxistore.Encrypt.Envelope.Layout.{
  opened, decrypt-parts, decrypt-short, from_le_bytes-to_le_bytes,
}
use oxistore.Encrypt.Envelope.RoundTrip.{IsAead, IsRng, IsCipher, read-ok, opened-ok}

pub same_ok : {E A : Type 0} (x : Result E A) (a b : A) → x ≡ ok a → x ≡ ok b → a ≡ b
same_ok x a b e e' = cc

-- What a successful decryption found in the envelope.
pub record Found (cipher : Aead) (c : EnvelopeCipher) (env aad plaintext : Bytes) : Type 0 where
  pub kek : Bytes
  pub dek : Bytes
  pub long : min_envelope_len ≤ length env
  pub has_kek : kek_for_version (from_le_bytes (take 4 env)) c.keyring ≡ some kek
  pub opens_dek :
      cipher.open_ kek (slice 4 28 env) (to_le_bytes (from_le_bytes (take 4 env))) (slice 28 76 env)
      ≡ ok dek
  pub opens_data :
      cipher.open_ dek (take 24 (drop 76 env)) aad (drop 24 (drop 76 env)) ≡ ok plaintext

module _ (cipher : Aead) where
  opened-found :
      (c : EnvelopeCipher) (version : ℕ) (n1 w n2 d aad plaintext : Bytes)
      → read c ≡ ok c.keyring
      → opened cipher c version n1 w n2 d aad ≡ ok plaintext
      → (kek : Bytes) × (dek : Bytes) × (kek_for_version version c.keyring ≡ some kek)
        × (cipher.open_ kek n1 (to_le_bytes version) w ≡ ok dek)
        × (cipher.open_ dek n2 aad d ≡ ok plaintext)
  opened-found c version n1 w n2 d aad plaintext healthy e =
      elim (Option-cases (kek_for_version version c.keyring)) [
        | inl missing ↦ absurd (ground arith)
        | inr (kek, is_kek) ↦ elim (Result-cases (cipher.open_ kek n1 (to_le_bytes version) w)) [
          | inr (bad, is_bad) ↦ absurd (ground arith)
          | inl (dek, is_dek) ↦ elim (Result-cases (cipher.open_ dek n2 aad d)) [
            | inr (bad, is_bad) ↦ absurd (ground arith)
            | inl (found, is_found) ↦ (kek, dek, is_kek, is_dek, ground arith)
          ]
        ]
      ]

  pub decrypt-Found :
      (c : EnvelopeCipher) (env aad plaintext : Bytes)
      → read c ≡ ok c.keyring
      → decrypt cipher c env aad ≡ ok plaintext
      → Found cipher c env aad plaintext
  decrypt-Found c env aad plaintext healthy e =
      elim (Bool-cases (ltb (length env) min_envelope_len)) [
        | inl short ↦ absurd (ground (arith, decrypt-short cipher c env aad))
        | inr full ↦
            let long : min_envelope_len ≤ length env = ground arith in
            let (kek, dek, a, b, d) =
              opened-found c (from_le_bytes (take 4 env)) (slice 4 28 env) (slice 28 76 env)
                (take 24 (drop 76 env)) (drop 24 (drop 76 env)) aad plaintext healthy
                (sym (decrypt-parts cipher c env aad long) ∙ e) in
            record { kek = kek; dek = dek; long = long; has_kek = a; opens_dek = b; opens_data = d }
      ]

module _ {R : Type 0} (cipher : Aead) (rng : Rng R) (aead : IsAead cipher)
    (random : IsRng rng) where
  pub found-decrypt :
      (c : EnvelopeCipher) (env aad plaintext kek dek : Bytes)
      → IsCipher c
      → min_envelope_len ≤ length env
      → kek_for_version (from_le_bytes (take 4 env)) c.keyring ≡ some kek
      → cipher.open_ kek
          (slice 4 28 env)
          (to_le_bytes (from_le_bytes (take 4 env)))
          (slice 28 76 env)
        ≡ ok dek
      → cipher.open_ dek (take 24 (drop 76 env)) aad (drop 24 (drop 76 env)) ≡ ok plaintext
      → decrypt cipher c env aad ≡ ok plaintext
  found-decrypt c env aad plaintext kek dek h long e1 e2 e3 =
      decrypt-parts cipher c env aad long
      ∙ opened-ok cipher rng aead random c (from_le_bytes (take 4 env)) (slice 4 28 env)
          (slice 28 76 env) (take 24 (drop 76 env)) (drop 24 (drop 76 env)) aad kek dek plaintext
          (read-ok cipher rng aead random c h) e1 e2 e3

  -- The parts of an envelope that carries the version of the active key.
  pub active-Found :
      (c : EnvelopeCipher) (kek env aad plaintext : Bytes)
      → IsCipher c
      → active_kek c.keyring ≡ ok kek
      → take 4 env ≡ to_le_bytes (length c.keyring.versions)
      → decrypt cipher c env aad ≡ ok plaintext
      → (dek : Bytes) × (cipher.open_ kek
            (slice 4 28 env)
            (to_le_bytes (length c.keyring.versions))
            (slice 28 76 env)
          ≡ ok dek)
        × (cipher.open_ dek (take 24 (drop 76 env)) aad (drop 24 (drop 76 env)) ≡ ok plaintext)
  active-Found c kek env aad plaintext h is_kek header e =
      let found : Found cipher c env aad plaintext =
        decrypt-Found cipher c env aad plaintext (read-ok cipher rng aead random c h) e in
      let (kek', is_version, is_kek', is_found, kek_long) = active-IsKeyring c.keyring h.ring in
      let small : length c.keyring.versions < 2 ^ 32 = omega (arith, h.ring.bounded) in
      let version : from_le_bytes (take 4 env) ≡ length c.keyring.versions =
        ap from_le_bytes header ∙ from_le_bytes-to_le_bytes (length c.keyring.versions) small in
      let has : some found.kek ≡ some kek' =
        sym found.has_kek ∙ ap (λ n. kek_for_version n c.keyring) version ∙ is_found in
      let is_kek_found : kek' ≡ kek = same_ok (active_kek c.keyring) kek' kek is_kek' is_kek in
      let same : found.kek ≡ kek = cc in
      (found.dek, rw (← version, ← same) found.opens_dek, found.opens_data)
