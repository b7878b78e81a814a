-- ===== src/Blob/Digest/RoundTrip.antt =====
-- Digests to hexadecimal and back.
use oxistore.Common.{
  true, Bool-cases, ℕ, ◌+◌, ◌-◌, ◌*◌, ◌/◌, ◌%◌, ◌<◌, ◌≡◌, refl, some, [], ◌∷◌, map, leb, ◌==◌, ◌&&◌,
  length, if◌then◌else◌, ok, arith, Option-cases, Result-cases, inl, inr,
}
use oxistore.Common.Bytes.{Bytes, AreBytes}
use oxistore.Blob.Digest.{Digest, hex_digit, hex_bytes, to_hex, hex_nibble, from_chunks, from_hex}

-- The lower-case form of a hexadecimal digit.
abbrev pub lower : ℕ → ℕ
lower c = if leb 65 c && leb c 70 then c + 32 else c

hex_nibble-hex_digit : (n : ℕ) → n < 16 → hex_nibble (hex_digit n) ≡ some n
unfolding hex_nibble hex_digit
hex_nibble-hex_digit n h = ground arith

hex_digit-hex_nibble : (c n : ℕ) → hex_nibble c ≡ some n → (hex_digit n ≡ lower c) × (n < 16)
unfolding hex_nibble hex_digit
hex_digit-hex_nibble c n h = ground arith

length-hex_bytes : (l : Bytes) → length (hex_bytes l) ≡ length l + length l
unfolding hex_bytes
length-hex_bytes [] = omega arith
length-hex_bytes (b ∷ l) = omega (arith, length-hex_bytes l)

from_chunks-hex_bytes : (l : Bytes) → AreBytes l → from_chunks (hex_bytes l) ≡ ok l
unfolding from_chunks hex_bytes
from_chunks-hex_bytes [] h = refl
from_chunks-hex_bytes (b ∷ l) h =
    let hi : hex_nibble (hex_digit (b / 16)) ≡ some (b / 16) =
      hex_nibble-hex_digit (b / 16) (omega (arith, h.0)) in
    let lo : hex_nibble (hex_digit (b % 16)) ≡ some (b % 16) =
      hex_nibble-hex_digit (b % 16) (omega arith) in
    let e : 16 * (b / 16) + b % 16 ≡ b = omega arith in
    rw (hi, lo, from_chunks-hex_bytes l h.1, e) refl

-- Two digits for each byte, in lower case.
hex_bytes-from_chunks :
    (l bytes : Bytes) (n : ℕ)
    → length l ≡ n + n
    → from_chunks l ≡ ok bytes
    → (hex_bytes bytes ≡ map lower l) × (length bytes ≡ n) × AreBytes bytes
unfolding from_chunks hex_bytes
hex_bytes-from_chunks [] bytes n h e =
    let same : [] ≡ bytes = ground arith in rw (← same) (refl, omega arith, tt)
hex_bytes-from_chunks (c ∷ []) bytes n h e = absurd (omega (arith, h))
hex_bytes-from_chunks (c ∷ c' ∷ l) bytes n h e = elim (Option-cases (hex_nibble c)) [
  | inl missing ↦ absurd (ground arith)
  | inr (hi, is_hi) ↦ elim (Option-cases (hex_nibble c')) [
    | inl missing ↦ absurd (ground arith)
    | inr (lo, is_lo) ↦ elim (Result-cases (from_chunks l)) [
      | inr (bad, is_bad) ↦ absurd (ground arith)
      | inl (rest, is_rest) ↦
          let (e1, b1) = hex_digit-hex_nibble c hi is_hi in
          let (e2, b2) = hex_digit-hex_nibble c' lo is_lo in
          let (ih, len, small) = hex_bytes-from_chunks l rest (n - 1) (omega arith) is_rest in
          let same : (16 * hi + lo) ∷ rest ≡ bytes = ground arith in
          let q : (16 * hi + lo) / 16 ≡ hi = omega arith in
          let r : (16 * hi + lo) % 16 ≡ lo = omega arith in
          rw (← same) (rw (q, r, e1, e2, ih) refl, omega arith, (omega arith, small))
    ]
  ]
]

-- `from_hex` reads back what `to_hex` writes for a digest of 32 bytes.
pub from_hex-to_hex :
    (digest : Digest)
    → length digest.bytes ≡ 32
    → AreBytes digest.bytes
    → from_hex (to_hex digest) ≡ ok digest
unfolding from_hex to_hex
from_hex-to_hex digest h bytes =
    let long : length (hex_bytes digest.bytes) ≡ 64 =
      omega (arith, length-hex_bytes digest.bytes) in
    let test : (length (hex_bytes digest.bytes) == 64) ≡ true = ground arith in
    rw (test, from_chunks-hex_bytes digest.bytes bytes) refl

-- What `from_hex` accepts is a digest of 32 bytes written in hexadecimal, in lower or upper case:
-- `to_hex` of the result is the text in lower case.
pub to_hex-from_hex :
    (s : Bytes) (digest : Digest)
    → from_hex s ≡ ok digest
    → (to_hex digest ≡ map lower s) × (length digest.bytes ≡ 32) × AreBytes digest.bytes
unfolding from_hex to_hex
to_hex-from_hex s digest e = elim (Bool-cases (length s == 64)) [
  | inr wrong ↦ absurd (ground arith)
  | inl right ↦ elim (Result-cases (from_chunks s)) [
    | inr (bad, is_bad) ↦ absurd (ground arith)
    | inl (bytes, is_bytes) ↦
        let same : bytes ≡ digest.bytes = ground arith in
        rw (← same) (hex_bytes-from_chunks s bytes 32 (ground arith) is_bytes)
  ]
]
