-- ===== src/Encrypt/Envelope.antt =====
-- `EnvelopeCipher` of crates/oxistore-encrypt/src/envelope.rs: the layout of an envelope, and its
-- decryption. `u32::to_le_bytes` and slices are written out; `seal` and `open` return what they
-- write into their output buffers.
pub mod Seal
pub mod Layout
pub mod RoundTrip
pub mod Found
pub mod Rotation
use Prim.Native.String.{String}
use oxistore.Common.{
  ℕ, ◌+◌, ◌*◌, ◌-◌, ◌/◌, ◌%◌, Bool, true, false, Option, none, some, List, [], ◌∷◌, length, take,
  drop, ltb, ◌==◌, get_or, if◌then◌else◌, Result, ok, err, ok_or, map_err, ◌>>=◌, ◌>>◌,
}
use oxistore.Common.Bytes.{Bytes}
use oxistore.Encrypt.Errors.{
  EncryptError, ciphertext_too_short, authentication_failed, lock_poisoned, missing_kek_version,
}
use oxistore.Encrypt.Keyring.{Keyring, kek_for_version, active_version, rotate}

-- `oxicrypto::XChaCha20Poly1305`: `seal key nonce aad plaintext`, `open key nonce aad ciphertext`
pub record Aead : Type 0 where
  pub seal : Bytes → Bytes → Bytes → Bytes → Result String Bytes
  pub open_ : Bytes → Bytes → Bytes → Bytes → Result String Bytes

abbrev pub kek_version_len : ℕ
kek_version_len = 4

abbrev pub wrap_nonce_len : ℕ
wrap_nonce_len = 24

abbrev pub wrapped_dek_len : ℕ
wrapped_dek_len = 48

abbrev pub data_nonce_len : ℕ
data_nonce_len = 24

abbrev pub data_tag_len : ℕ
data_tag_len = 16

abbrev pub wrap_nonce_offset : ℕ
wrap_nonce_offset = kek_version_len

abbrev pub wrapped_dek_offset : ℕ
wrapped_dek_offset = wrap_nonce_offset + wrap_nonce_len

abbrev pub data_nonce_offset : ℕ
data_nonce_offset = wrapped_dek_offset + wrapped_dek_len

abbrev pub data_ct_offset : ℕ
data_ct_offset = data_nonce_offset + data_nonce_len

abbrev pub min_envelope_len : ℕ
min_envelope_len = data_ct_offset + data_tag_len

unfoldable pub to_le_bytes : ℕ → Bytes
to_le_bytes n = n % 256 ∷ n / 256 % 256 ∷ n / 65536 % 256 ∷ n / 16777216 % 256 ∷ []

unfoldable pub from_le_bytes : Bytes → ℕ
from_le_bytes b = get_or b 0 0 + 256 * get_or b 1 0 + 65536 * get_or b 2 0 + 16777216 * get_or b 3 0

-- `bytes[lo..hi]`
abbrev pub slice : ℕ → ℕ → Bytes → Bytes
slice lo hi l = take (hi - lo) (drop lo l)

-- `try_into` to an array of `n` bytes, in an envelope of `got` bytes
unfoldable pub to_array : ℕ → ℕ → Bytes → Result EncryptError Bytes
to_array n got l = if length l == n then ok l else err (ciphertext_too_short min_envelope_len got)

-- The keyring behind its lock, which a panic of a writer poisons.
pub record EnvelopeCipher : Type 0 where
  pub keyring : Keyring
  pub poisoned : Bool

unfoldable pub new : Keyring → EnvelopeCipher
new keyring = record { keyring = keyring; poisoned = false }

-- `self.keyring.read()`
unfoldable pub read : EnvelopeCipher → Result EncryptError Keyring
read c = if c.poisoned then err lock_poisoned else ok c.keyring

abbrev pub unauthentic : {A : Type 0} → Result String A → Result EncryptError A
unauthentic = map_err (λ e. authentication_failed)

unfoldable pub decrypt : Aead → EnvelopeCipher → Bytes → Bytes → Result EncryptError Bytes
decrypt cipher c ciphertext aad =
    let got = length ciphertext in
    if ltb got min_envelope_len then err (ciphertext_too_short min_envelope_len got) else (do
      version_bytes ← to_array kek_version_len got (take kek_version_len ciphertext)
      wrap_nonce ←
          to_array wrap_nonce_len got (slice wrap_nonce_offset wrapped_dek_offset ciphertext)
      data_nonce ← to_array data_nonce_len got (slice data_nonce_offset data_ct_offset ciphertext)
      ring ← read c
      kek ←
          ok_or (kek_for_version (from_le_bytes version_bytes) ring)
            (missing_kek_version (from_le_bytes version_bytes))
      dek ← unauthentic (
          cipher.open_ kek wrap_nonce (to_le_bytes (from_le_bytes version_bytes))
            (slice wrapped_dek_offset data_nonce_offset ciphertext))
      unauthentic (cipher.open_ dek data_nonce aad (drop data_ct_offset ciphertext)))

-- `EnvelopeCipher::active_version`
unfoldable pub cipher_version : EnvelopeCipher → Result EncryptError ℕ
cipher_version c = do ring ← read c; active_version ring

unfoldable pub add_kek_version : Bytes → EnvelopeCipher → Result EncryptError ℕ × EnvelopeCipher
add_kek_version new_kek c =
    if c.poisoned
    then (err lock_poisoned, c)
    else ((rotate new_kek c.keyring).0, record c { keyring = (rotate new_kek c.keyring).1 })
