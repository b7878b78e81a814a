-- ===== src/Tests/DigestExamples.antt =====
-- A digest of 32 bytes 171, in lower and upper case hexadecimal.
use oxistore.Common.{◌≡◌, refl, [], ◌∷◌, map, replicate, ok, length, arith}
use oxistore.Common.Bytes.{Bytes, AreBytes}
use oxistore.Blob.Digest.{Digest, to_hex, hex_nibble, from_chunks, from_hex}
use oxistore.Blob.Digest.RoundTrip.{lower, from_hex-to_hex, to_hex-from_hex}

abbrev bytes : Bytes
bytes = replicate 32 171

abbrev digest : Digest
digest = record { bytes = bytes }

are_small : AreBytes bytes
are_small = ground arith

from_hex-to_hex_example : from_hex (to_hex digest) ≡ ok digest
from_hex-to_hex_example = from_hex-to_hex digest refl are_small

abbrev upper : Bytes
upper =
    65 ∷ 66 ∷ 65 ∷ 66 ∷ 65 ∷ 66 ∷ 65 ∷ 66 ∷ 65 ∷ 66 ∷ 65 ∷ 66 ∷ 65 ∷ 66 ∷ 65 ∷ 66 ∷ 65 ∷ 66 ∷ 65
    ∷ 66 ∷ 65 ∷ 66 ∷ 65 ∷ 66 ∷ 65 ∷ 66 ∷ 65 ∷ 66 ∷ 65 ∷ 66 ∷ 65 ∷ 66 ∷ 65 ∷ 66 ∷ 65 ∷ 66 ∷ 65 ∷ 66
    ∷ 65 ∷ 66 ∷ 65 ∷ 66 ∷ 65 ∷ 66 ∷ 65 ∷ 66 ∷ 65 ∷ 66 ∷ 65 ∷ 66 ∷ 65 ∷ 66 ∷ 65 ∷ 66 ∷ 65 ∷ 66 ∷ 65
    ∷ 66 ∷ 65 ∷ 66 ∷ 65 ∷ 66 ∷ 65 ∷ 66 ∷ []

reads_upper : from_hex upper ≡ ok digest
unfolding from_hex from_chunks hex_nibble
reads_upper = refl

to_hex-from_hex_example :
    (to_hex digest ≡ map lower upper) × (length digest.bytes ≡ 32) × AreBytes digest.bytes
to_hex-from_hex_example = to_hex-from_hex upper digest reads_upper
