-- ===== src/Encrypt/Keys.antt =====
-- `KeyProvider` and `StaticKey` of crates/oxistore-encrypt/src/keys.rs.
use oxistore.Common.{length, ◌==◌, if◌then◌else◌, Result, ok, err, ◌>>=◌}
use oxistore.Common.Bytes.{Bytes}
use oxistore.Encrypt.Errors.{EncryptError, invalid_key_length}

pub record KeyProvider (K : Type 0) : Type 0 where
  pub get_key : K → Result EncryptError Bytes

unfoldable pub key32 : {K : Type 0} → KeyProvider K → K → Result EncryptError Bytes
key32 provider k = do
  raw ← provider.get_key k
  if length raw == 32 then ok raw else err (invalid_key_length (length raw))

pub record StaticKey : Type 0 where
  pub bytes : Bytes

unfoldable pub from_array : Bytes → StaticKey
from_array key = record { bytes = key }

unfoldable pub static_key : KeyProvider StaticKey
static_key = record {
  get_key =
      λ k. if length k.bytes == 32 then ok k.bytes else err (invalid_key_length (length k.bytes));
}
