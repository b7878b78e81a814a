-- ===== src/Encrypt/Envelope/Seal.antt =====
-- `EnvelopeCipher::encrypt` and `rewrap_envelope` of crates/oxistore-encrypt/src/envelope.rs. The
-- source writes the parts of an envelope at their offsets in one buffer: their concatenation.
use oxistore.Common.{ℕ, ◌++◌, length, take, drop, ltb, if◌then◌else◌, ok, err, ok_or, map_err}
use oxistore.Common.Bytes.{Bytes}
use oxistore.Encrypt.Errors.{
  ciphertext_too_short, rng_failed, missing_kek_version, encryption_failed, Draw, Rng, lift, ◌>>=◌,
  ◌>>◌,
}
use oxistore.Encrypt.Keyring.{active_version, active_kek, kek_for_version}
use oxistore.Encrypt.Envelope.{
  Aead, EnvelopeCipher, read, unauthentic, to_le_bytes, from_le_bytes, slice, to_array,
  kek_version_len, wrap_nonce_len, wrap_nonce_offset, wrapped_dek_offset, data_nonce_offset,
  min_envelope_len,
}

module _ {R : Type 0} (cipher : Aead) (rng : Rng R) where
  -- `generate_dek` for 32 bytes, `random_nonce_24` for 24
  unfoldable pub draw : ℕ → Draw R Bytes
  draw n = do
    (λ r. (map_err (λ e. rng_failed) (rng.new_rng r).0, (rng.new_rng r).1))
    (λ r. (map_err (λ e. rng_failed) (rng.fill n r).0, (rng.fill n r).1))

  unfoldable pub encrypt : EnvelopeCipher → Bytes → Bytes → Draw R Bytes
  encrypt c plaintext aad = do
    ring ← lift (read c)
    kek_version ← lift (active_version ring)
    kek ← lift (active_kek ring)
    dek ← draw 32
    wrap_nonce ← draw 24
    data_nonce ← draw 24
    wrapped_dek ←
        lift (map_err encryption_failed (cipher.seal kek wrap_nonce (to_le_bytes kek_version) dek))
    data_ct ← lift (map_err encryption_failed (cipher.seal dek data_nonce aad plaintext))
    lift (ok (to_le_bytes kek_version ++ (wrap_nonce ++ (wrapped_dek ++ (data_nonce ++ data_ct)))))

  unfoldable pub rewrap_envelope : EnvelopeCipher → Bytes → Draw R Bytes
  rewrap_envelope c envelope =
      let got = length envelope in
      if ltb got min_envelope_len
      then lift (err (ciphertext_too_short min_envelope_len got))
      else (do
        version_bytes ← lift (to_array kek_version_len got (take kek_version_len envelope))
        old_wrap_nonce ←
            lift (to_array wrap_nonce_len got (slice wrap_nonce_offset wrapped_dek_offset envelope))
        ring ← lift (read c)
        old_kek ← lift (
            ok_or (kek_for_version (from_le_bytes version_bytes) ring)
              (missing_kek_version (from_le_bytes version_bytes)))
        new_version ← lift (active_version ring)
        new_kek ← lift (active_kek ring)
        dek ← lift (
            unauthentic (
              cipher.open_ old_kek old_wrap_nonce (to_le_bytes (from_le_bytes version_bytes))
                (slice wrapped_dek_offset data_nonce_offset envelope)))
        new_wrap_nonce ← draw 24
        new_wrapped_dek ← lift (
            map_err encryption_failed
              (cipher.seal new_kek new_wrap_nonce (to_le_bytes new_version) dek))
        lift (
            ok (
              to_le_bytes new_version
              ++ (new_wrap_nonce ++ (new_wrapped_dek ++ drop data_nonce_offset envelope)))))
