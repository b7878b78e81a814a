-- ===== src/Encrypt/Envelope/Rotation.antt =====
-- What can be decrypted stays so when a key is added, and when an envelope is re-wrapped.
use oxistore.Common.{
  ◌+◌, ℕ, ◌-◌, ◌≤◌, ◌<◌, ◌^◌, ◌≡◌, refl, false, some, ◌++◌, length, take, drop, ok, arith,
  take-append, length-drop, length-take, ltb,
}
use oxistore.Common.Bytes.{Bytes}
use oxistore.Encrypt.Errors.{Rng}
use oxistore.Encrypt.Keyring.{active_version, active_kek, kek_for_version, rotate}
use oxistore.Encrypt.Keyring.Versions.{active-IsKeyring, rotate-adds}
use oxistore.Encrypt.Envelope.{
  Aead, EnvelopeCipher, read, decrypt, to_le_bytes, from_le_bytes, slice, min_envelope_len,
  add_kek_version, to_array,
}
use oxistore.Encrypt.Envelope.Seal.{draw, encrypt, rewrap_envelope}
use oxistore.Encrypt.Envelope.Layout.{
  length-to_le_bytes, from_le_bytes-to_le_bytes, to_array-exact, drop-join, length-join,
}
use oxistore.Encrypt.Envelope.RoundTrip.{
  IsAead, IsRng, IsCipher, encrypt-version, draw-length, read-ok, opens_body,
}
use oxistore.Encrypt.Envelope.Found.{same_ok, Found, decrypt-Found, found-decrypt, active-Found}

module _ {R : Type 0} (cipher : Aead) (rng : Rng R) (aead : IsAead cipher)
    (random : IsRng rng) where
  add_kek_version-exact :
      (c : EnvelopeCipher) (new_kek : Bytes)
      → IsCipher c
      → add_kek_version new_kek c
        ≡ ((rotate new_kek c.keyring).0, record c { keyring = (rotate new_kek c.keyring).1 })
  unfolding add_kek_version
  add_kek_version-exact c new_kek h = ground (arith, h.healthy)

  pub add_kek_version-IsCipher :
      (c : EnvelopeCipher) (new_kek : Bytes)
      → IsCipher c
      → length new_kek ≡ 32
      → length c.keyring.versions < 2 ^ 32 - 2
      → (active_kek (add_kek_version new_kek c).1.keyring ≡ ok new_kek)
        × IsCipher (add_kek_version new_kek c).1
  add_kek_version-IsCipher c new_kek h k room =
      let (is_next, is_version, is_kek, keeps, still) =
        rotate-adds c.keyring new_kek h.ring k room in
      rw (add_kek_version-exact c new_kek h) (is_kek, record { healthy = h.healthy; ring = still })

  pub add_kek_version_ok :
      (c : EnvelopeCipher) (new_kek : Bytes)
      → IsCipher c
      → length new_kek ≡ 32
      → length c.keyring.versions < 2 ^ 32 - 2
      → (add_kek_version new_kek c).0 ≡ ok (length c.keyring.versions + 1)
  add_kek_version_ok c new_kek h k room =
      let (is_next, is_version, is_kek, keeps, still) =
        rotate-adds c.keyring new_kek h.ring k room in
      rw (add_kek_version-exact c new_kek h) is_next

  length-add_kek_version :
      (c : EnvelopeCipher) (new_kek : Bytes)
      → IsCipher c
      → length new_kek ≡ 32
      → length c.keyring.versions < 2 ^ 32 - 2
      → length (add_kek_version new_kek c).1.keyring.versions ≡ length c.keyring.versions + 1
  length-add_kek_version c new_kek h k room =
      let (is_next, is_version, is_kek, keeps, still) =
        rotate-adds c.keyring new_kek h.ring k room in
      let (kek, is_version', is_kek', is_found, kek_long) =
        active-IsKeyring (rotate new_kek c.keyring).1 still in
      let next : length (rotate new_kek c.keyring).1.versions ≡ length c.keyring.versions + 1 =
        same_ok (active_version (rotate new_kek c.keyring).1) _ _ is_version' is_version in
      rw (add_kek_version-exact c new_kek h) next

  pub decrypt-add_kek_version_old :
      (c : EnvelopeCipher) (new_kek env aad plaintext : Bytes)
      → IsCipher c
      → length new_kek ≡ 32
      → length c.keyring.versions < 2 ^ 32 - 2
      → decrypt cipher c env aad ≡ ok plaintext
      → (decrypt cipher (add_kek_version new_kek c).1 env aad ≡ ok plaintext)
        × (active_kek (add_kek_version new_kek c).1.keyring ≡ ok new_kek)
        × IsCipher (add_kek_version new_kek c).1
  decrypt-add_kek_version_old c new_kek env aad plaintext h k room e =
      let found : Found cipher c env aad plaintext =
        decrypt-Found cipher c env aad plaintext (read-ok cipher rng aead random c h) e in
      let (is_next, is_version, is_kek, keeps, still) =
        rotate-adds c.keyring new_kek h.ring k room in
      let c' : EnvelopeCipher = record c { keyring = (rotate new_kek c.keyring).1 } in
      let h' : IsCipher c' = record { healthy = h.healthy; ring = still } in
      rw (add_kek_version-exact c new_kek h) (
        found-decrypt cipher rng aead random c' env aad plaintext found.kek found.dek h' found.long
            (keeps (from_le_bytes (take 4 env)) found.kek found.has_kek) found.opens_dek
            found.opens_data,
        is_kek,
        h',
      )

  -- With an AEAD and a random generator that work as documented, and a keyring in order:
  -- `add_kek_version` with a key of 32 bytes, on a cipher with fewer than `u32::MAX - 1` keys, makes
  -- that key the active one and leaves the keyring in order. What could be decrypted before can still
  -- be decrypted; and `encrypt` of a plaintext that the AEAD takes succeeds from then on, with an
  -- envelope that carries the next version, whose data key opens with the new key and that version,
  -- and whose data opens to the plaintext with that data key.
  pub decrypt-add_kek_version :
      (c : EnvelopeCipher) (new_kek env aad plaintext new_plaintext new_aad : Bytes) (r : R)
      → IsCipher c
      → length new_kek ≡ 32
      → length c.keyring.versions < 2 ^ 32 - 2
      → decrypt cipher c env aad ≡ ok plaintext
      → length new_plaintext ≤ aead.max_plaintext
      → (decrypt cipher (add_kek_version new_kek c).1 env aad ≡ ok plaintext)
        × (active_kek (add_kek_version new_kek c).1.keyring ≡ ok new_kek)
        × IsCipher (add_kek_version new_kek c).1
        × ((env' : Bytes) × (r' : R) × (dek : Bytes) × (encrypt cipher rng
                (add_kek_version new_kek c).1
                new_plaintext
                new_aad
                r
              ≡ (ok env', r'))
            × (take 4 env' ≡ to_le_bytes (length c.keyring.versions + 1))
            × (cipher.open_ new_kek
                  (slice 4 28 env')
                  (to_le_bytes (length c.keyring.versions + 1))
                  (slice 28 76 env')
                ≡ ok dek)
            × (cipher.open_ dek (take 24 (drop 76 env')) new_aad (drop 24 (drop 76 env'))
                ≡ ok new_plaintext))
  decrypt-add_kek_version c new_kek env aad plaintext new_plaintext new_aad r h k room e fits =
      let (old, is_kek, h') = decrypt-add_kek_version_old c new_kek env aad plaintext h k room e in
      let c' : EnvelopeCipher = (add_kek_version new_kek c).1 in
      let next : length c'.keyring.versions ≡ length c.keyring.versions + 1 =
        length-add_kek_version c new_kek h k room in
      let (env', r', runs, header, long, opens) =
        encrypt-version cipher rng aead random c' new_plaintext new_aad r h' fits in
      let (dek, opens_dek, opens_data) =
        active-Found cipher rng aead random c' new_kek env' new_aad new_plaintext h' is_kek header
          opens in
      (
        old,
        is_kek,
        h',
        (env', r', dek, runs, rw (← next) header, rw (← next) opens_dek, opens_data),
      )

  rewrap-runs :
      (c : EnvelopeCipher) (env : Bytes) (r : R) (version : ℕ) (old_kek kek dek n w : Bytes)
      (r1 : R)
      → min_envelope_len ≤ length env
      → read c ≡ ok c.keyring
      → kek_for_version (from_le_bytes (take 4 env)) c.keyring ≡ some old_kek
      → active_version c.keyring ≡ ok version
      → active_kek c.keyring ≡ ok kek
      → cipher.open_ old_kek
          (slice 4 28 env)
          (to_le_bytes (from_le_bytes (take 4 env)))
          (slice 28 76 env)
        ≡ ok dek
      → draw cipher rng 24 r ≡ (ok n, r1)
      → cipher.seal kek n (to_le_bytes version) dek ≡ ok w
      → rewrap_envelope cipher rng c env r
        ≡ (ok (to_le_bytes version ++ (n ++ (w ++ drop 76 env))), r1)
  unfolding rewrap_envelope
  rewrap-runs c env r version old_kek kek dek n w r1 h e1 e2 e3 e4 e5 e6 e7 =
      let short : ltb (length env) min_envelope_len ≡ false = ground arith in
      let a1 : to_array 4 (length env) (take 4 env) ≡ ok (take 4 env) =
        to_array-exact 4 (length env) (take 4 env) (length-take 4 env (omega arith)) in
      let a2 : to_array 24 (length env) (take 24 (drop 4 env)) ≡ ok (take 24 (drop 4 env)) =
        to_array-exact 24 (length env) (take 24 (drop 4 env))
          (length-take 24 (drop 4 env) (omega (arith, length-drop 4 env))) in
      rw (short, a1, a2, e1, e2, e3, e4, e5, e6, e7) refl

  -- With an AEAD and a random generator that work as documented, and a keyring in order: an envelope
  -- that can be decrypted is re-wrapped without an error. The result has its length,
  -- carries the active version, keeps everything after the wrapped key, and decrypts to the same
  -- plaintext.
  pub decrypt-rewrap_envelope :
      (c : EnvelopeCipher) (env aad plaintext : Bytes) (r : R)
      → IsCipher c
      → decrypt cipher c env aad ≡ ok plaintext
      → (env' : Bytes) × (r' : R) × (rewrap_envelope cipher rng c env r ≡ (ok env', r'))
        × (active_version c.keyring ≡ ok (from_le_bytes (take 4 env')))
        × (drop 76 env' ≡ drop 76 env)
        × (length env' ≡ length env)
        × (decrypt cipher c env' aad ≡ ok plaintext)
  decrypt-rewrap_envelope c env aad plaintext r h e =
      let found : Found cipher c env aad plaintext =
        decrypt-Found cipher c env aad plaintext (read-ok cipher rng aead random c h) e in
      let version : ℕ = length c.keyring.versions in
      let (kek, is_version, is_kek, is_found, kek_long) = active-IsKeyring c.keyring h.ring in
      let small : version < 2 ^ 32 = omega (arith, h.ring.bounded) in
      let long : min_envelope_len ≤ length env = found.long in
      let dek_long : length found.dek ≡ 32 = omega (
        arith,
        aead.open_length _ _ _ _ _ found.opens_dek,
        length-take 48 (drop 28 env) (omega (arith, length-drop 28 env)),
      ) in
      let (n, r1, is_n, n_long) = draw-length cipher rng aead random 24 r in
      let (w, is_w, w_long, w_opens) =
        aead.seal_opens kek n (to_le_bytes version) found.dek kek_long n_long
          (omega (arith, aead.dek_fits)) in
      let w_long' : length w ≡ 48 = omega arith in
      let body_long : length (drop 76 env) ≡ length env - 76 = length-drop 76 env in
      let same : drop 76 (to_le_bytes version ++ (n ++ (w ++ drop 76 env))) ≡ drop 76 env =
        drop-join (to_le_bytes version) n w (drop 76 env) (length-to_le_bytes version) n_long
          w_long' in
      let first : take 4 (to_le_bytes version ++ (n ++ (w ++ drop 76 env))) ≡ to_le_bytes version =
        take-append (to_le_bytes version) (n ++ (w ++ drop 76 env)) 4
          (length-to_le_bytes version) in
      (
        to_le_bytes version ++ (n ++ (w ++ drop 76 env)),
        r1,
        rewrap-runs c env r version found.kek kek found.dek n w r1 long
            (read-ok cipher rng aead random c h) found.has_kek is_version is_kek found.opens_dek
            is_n is_w,
        rw (first, from_le_bytes-to_le_bytes version small) is_version,
        same,
        omega (
          arith,
          length-join (to_le_bytes version) n w (drop 76 env),
          length-to_le_bytes version,
        ),
        opens_body cipher rng aead random c version n w (drop 76 env) aad kek found.dek plaintext h
            small n_long w_long' (omega arith) is_found w_opens found.opens_data,
      )
