-- ===== src/Encrypt/Envelope/Layout.antt =====
-- The parts of an envelope: reading back what was put together, and `decrypt` in terms of the parts.
use oxistore.Common.{
  true, false, ℕ, zero, suc, ◌+◌, ◌^◌, ◌≤◌, ◌<◌, ◌≡◌, refl, sym, ◌∙◌, ap, List, [], ◌∷◌, ◌++◌,
  length, take, drop, ltb, Result, ok, err, ok_or, arith, ◌>>=◌, take-append, drop-append,
  length-take, length-drop, length-append, drop_congr, drop-nil,
}
use oxistore.Common.Bytes.{Bytes}
use oxistore.Encrypt.Errors.{EncryptError, missing_kek_version, ciphertext_too_short}
use oxistore.Encrypt.Keyring.{kek_for_version}
use oxistore.Encrypt.Envelope.{
  Aead, EnvelopeCipher, read, decrypt, unauthentic, to_le_bytes, from_le_bytes, slice, to_array,
  min_envelope_len,
}

pub from_le_bytes-to_le_bytes : (n : ℕ) → n < 2 ^ 32 → from_le_bytes (to_le_bytes n) ≡ n
unfolding from_le_bytes to_le_bytes
from_le_bytes-to_le_bytes n h = omega arith

pub length-to_le_bytes : (n : ℕ) → length (to_le_bytes n) ≡ 4
unfolding to_le_bytes
length-to_le_bytes n = omega arith

drop-drop : {A : Type 0} (m n : ℕ) (l : List A) → drop n (drop m l) ≡ drop (m + n) l
drop-drop zero n l = let e : n ≡ 0 + n = omega arith in drop_congr l e
drop-drop (suc m) n [] = drop-nil n ∙ sym (drop-nil (suc m + n))
drop-drop (suc m) n (x ∷ l) =
    let e : suc (m + n) ≡ suc m + n = omega arith in drop-drop m n l ∙ drop_congr (x ∷ l) e

-- What `decrypt` does with the parts.
abbrev pub opened :
    Aead → EnvelopeCipher → ℕ → Bytes → Bytes → Bytes → Bytes → Bytes → Result EncryptError Bytes
opened cipher c version wrap_nonce wrapped_dek data_nonce data_ct aad = do
  ring ← read c
  kek ← ok_or (kek_for_version version ring) (missing_kek_version version)
  dek ← unauthentic (cipher.open_ kek wrap_nonce (to_le_bytes version) wrapped_dek)
  unauthentic (cipher.open_ dek data_nonce aad data_ct)

pub to_array-exact : (n got : ℕ) (l : Bytes) → length l ≡ n → to_array n got l ≡ ok l
unfolding to_array
to_array-exact n got l h = ground arith

pub drop-join :
    (v n w body : Bytes)
    → length v ≡ 4
    → length n ≡ 24
    → length w ≡ 48
    → drop 76 (v ++ (n ++ (w ++ body))) ≡ body
drop-join v n w body h0 h1 h2 =
    let env : Bytes = v ++ (n ++ (w ++ body)) in
    let q0 : drop 4 env ≡ n ++ (w ++ body) = drop-append v (n ++ (w ++ body)) 4 h0 in
    let q1 : drop 28 env ≡ w ++ body =
      sym (drop-drop 4 24 env) ∙ ap (drop 24) q0 ∙ drop-append n (w ++ body) 24 h1 in
    sym (drop-drop 28 48 env) ∙ ap (drop 48) q1 ∙ drop-append w body 48 h2

pub length-join :
    (v n w body : Bytes)
    → length (v ++ (n ++ (w ++ body))) ≡ length v + (length n + (length w + length body))
length-join v n w body =
    omega
      (arith, length-append v (n ++ (w ++ body)), length-append n (w ++ body), length-append w body)

module _ (cipher : Aead) (c : EnvelopeCipher) where
  -- The part of an envelope after the wrapped key is read at the same places in every envelope.
  pub decrypt-parts :
      (env aad : Bytes)
      → min_envelope_len ≤ length env
      → decrypt cipher c env aad
        ≡ opened cipher c
            (from_le_bytes (take 4 env))
            (slice 4 28 env)
            (slice 28 76 env)
            (take 24 (drop 76 env))
            (drop 24 (drop 76 env))
            aad
  unfolding decrypt
  decrypt-parts env aad h =
      let short : ltb (length env) min_envelope_len ≡ false = ground arith in
      let a1 : to_array 4 (length env) (take 4 env) ≡ ok (take 4 env) =
        to_array-exact 4 (length env) (take 4 env) (length-take 4 env (omega arith)) in
      let a2 : to_array 24 (length env) (take 24 (drop 4 env)) ≡ ok (take 24 (drop 4 env)) =
        to_array-exact 24 (length env) (take 24 (drop 4 env))
          (length-take 24 (drop 4 env) (omega (arith, length-drop 4 env))) in
      let a3 : to_array 24 (length env) (take 24 (drop 76 env)) ≡ ok (take 24 (drop 76 env)) =
        to_array-exact 24 (length env) (take 24 (drop 76 env))
          (length-take 24 (drop 76 env) (omega (arith, length-drop 76 env))) in
      rw (short, a1, a2, a3, drop-drop 76 24 env) refl

  pub decrypt-at :
      (env v wrap_nonce wrapped_dek body aad : Bytes)
      → min_envelope_len ≤ length env
      → take 4 env ≡ v
      → slice 4 28 env ≡ wrap_nonce
      → slice 28 76 env ≡ wrapped_dek
      → drop 76 env ≡ body
      → decrypt cipher c env aad
        ≡ opened cipher c (from_le_bytes v) wrap_nonce wrapped_dek (take 24 body) (drop 24 body) aad
  decrypt-at env v wrap_nonce wrapped_dek body aad h p0 p1 p2 p3 =
      rw (← p0, ← p1, ← p2, ← p3) (decrypt-parts env aad h)

  -- The parts of an envelope that is put together from parts of the right lengths.
  decrypt-concat :
      (v wrap_nonce wrapped_dek body aad : Bytes)
      → length v ≡ 4
      → length wrap_nonce ≡ 24
      → length wrapped_dek ≡ 48
      → 40 ≤ length body
      → decrypt cipher c (v ++ (wrap_nonce ++ (wrapped_dek ++ body))) aad
        ≡ opened cipher c (from_le_bytes v) wrap_nonce wrapped_dek (take 24 body) (drop 24 body) aad
  decrypt-concat v wrap_nonce wrapped_dek body aad h0 h1 h2 h3 =
      let env : Bytes = v ++ (wrap_nonce ++ (wrapped_dek ++ body)) in
      let long : min_envelope_len ≤ length env = omega (
        arith,
        length-append v (wrap_nonce ++ (wrapped_dek ++ body)),
        length-append wrap_nonce (wrapped_dek ++ body),
        length-append wrapped_dek body,
      ) in
      let p0 : take 4 env ≡ v = take-append v (wrap_nonce ++ (wrapped_dek ++ body)) 4 h0 in
      let q0 : drop 4 env ≡ wrap_nonce ++ (wrapped_dek ++ body) =
        drop-append v (wrap_nonce ++ (wrapped_dek ++ body)) 4 h0 in
      let p1 : take 24 (drop 4 env) ≡ wrap_nonce =
        ap (take 24) q0 ∙ take-append wrap_nonce (wrapped_dek ++ body) 24 h1 in
      let q1 : drop 28 env ≡ wrapped_dek ++ body =
        sym (drop-drop 4 24 env)
        ∙ ap (drop 24) q0
        ∙ drop-append wrap_nonce (wrapped_dek ++ body) 24 h1 in
      let p2 : take 48 (drop 28 env) ≡ wrapped_dek =
        ap (take 48) q1 ∙ take-append wrapped_dek body 48 h2 in
      let q2 : drop 76 env ≡ body =
        sym (drop-drop 28 48 env) ∙ ap (drop 48) q1 ∙ drop-append wrapped_dek body 48 h2 in
      decrypt-at env v wrap_nonce wrapped_dek body aad long p0 p1 p2 q2

  pub decrypt-join :
      (version : ℕ) (wrap_nonce wrapped_dek body aad : Bytes)
      → version < 2 ^ 32
      → length wrap_nonce ≡ 24
      → length wrapped_dek ≡ 48
      → 40 ≤ length body
      → decrypt cipher c (to_le_bytes version ++ (wrap_nonce ++ (wrapped_dek ++ body))) aad
        ≡ opened cipher c version wrap_nonce wrapped_dek (take 24 body) (drop 24 body) aad
  decrypt-join version wrap_nonce wrapped_dek body aad hv h1 h2 h3 =
      decrypt-concat (to_le_bytes version) wrap_nonce wrapped_dek body aad
        (length-to_le_bytes version) h1 h2 h3
      ∙ ap (λ v. opened cipher c v wrap_nonce wrapped_dek (take 24 body) (drop 24 body) aad)
          (from_le_bytes-to_le_bytes version hv)

  -- Fewer than 116 bytes are no envelope.
  pub decrypt-short :
      (env aad : Bytes)
      → length env < min_envelope_len
      → decrypt cipher c env aad ≡ err (ciphertext_too_short min_envelope_len (length env))
  unfolding decrypt
  decrypt-short env aad h =
      let short : ltb (length env) min_envelope_len ≡ true = ground arith in rw (short) refl
