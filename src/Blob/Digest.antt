-- ===== src/Blob/Digest.antt =====
-- `Digest` of crates/oxistore-blob/src/cas.rs and its hexadecimal form. A string is the list of its
-- bytes; of an error's text only the number in it is kept.
pub mod RoundTrip
use oxistore.Common.{
  ℕ, ◌+◌, ◌-◌, ◌*◌, ◌/◌, ◌%◌, Option, none, some, List, [], ◌∷◌, leb, ltb, ◌==◌, ◌&&◌, length,
  if◌then◌else◌, Result, ok, err, ok_or, ◌>>=◌, ◌>>◌,
}
use oxistore.Common.Bytes.{Bytes}

-- `BlobError::Other` with the texts of `from_hex`
pub data BlobError : Type 0 where
  other_length : ℕ → BlobError
  other_character : ℕ → BlobError

pub record Digest : Type 0 where
  pub bytes : Bytes

-- a digit of `{byte:02x}`
unfoldable pub hex_digit : ℕ → ℕ
hex_digit n = if ltb n 10 then 48 + n else 87 + n

unfoldable pub hex_bytes : Bytes → Bytes
hex_bytes [] = []
hex_bytes (byte ∷ bytes) = hex_digit (byte / 16) ∷ hex_digit (byte % 16) ∷ hex_bytes bytes

unfoldable pub to_hex : Digest → Bytes
to_hex digest = hex_bytes digest.bytes

unfoldable pub hex_nibble : ℕ → Option ℕ
hex_nibble b =
    if leb 48 b && leb b 57
    then some (b - 48)
    else if leb 97 b && leb b 102
    then some (b - 97 + 10)
    else if leb 65 b && leb b 70
    then some (b - 65 + 10)
    else none

-- The loop over `chunks(2)`: a nibble is below 16, so `(hi << 4) | lo` is `16 * hi + lo`. (A chunk of
-- one byte, on which the source panics, does not come up: the length is even.)
unfoldable pub from_chunks : Bytes → Result BlobError Bytes
from_chunks [] = ok []
from_chunks (c ∷ []) = ok []
from_chunks (c ∷ c' ∷ rest) = do
  hi ← ok_or (hex_nibble c) (other_character c)
  lo ← ok_or (hex_nibble c') (other_character c')
  bytes ← from_chunks rest
  ok ((16 * hi + lo) ∷ bytes)

unfoldable pub from_hex : Bytes → Result BlobError Digest
from_hex s =
    if length s == 64
    then (do bytes ← from_chunks s; ok (record { bytes = bytes }))
    else err (other_length (length s))
