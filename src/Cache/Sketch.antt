-- ===== src/Cache/Sketch.antt =====
-- `CountMinSketch` of crates/oxistore-cache/src/sketch.rs. Bytes are numbers below 256 and hashes numbers
-- below 2^64; masks and shifts of bytes are written as quotients and remainders. An index out of range,
-- a panic of the source, gives `none`.
pub mod Counters
pub mod Estimates
pub mod Undercount
pub mod Doorkeeper
use oxistore.Common.{
  ℕ, zero, suc, ◌+◌, ◌-◌, ◌*◌, ◌/◌, ◌%◌, ◌^◌, bit_xor, max, Option, none, some, List, [], ◌∷◌, map,
  replicate, get_elem?, ltb, leb, ◌==◌, if◌then◌else◌,
}
use oxistore.Common as Common
use oxistore.Common.Bytes.{Bytes}

abbrev pub depth : ℕ
depth = 4

abbrev pub fnv_offset : ℕ
fnv_offset = 0xcbf29ce484222325

abbrev pub fnv_prime : ℕ
fnv_prime = 0x100000001b3

unfoldable pub fnv1a_64 : Bytes → ℕ → ℕ
fnv1a_64 [] h = h
fnv1a_64 (b ∷ bs) h = fnv1a_64 bs (bit_xor h b * fnv_prime % 2 ^ 64)

unfoldable pub double_hash : Bytes → ℕ × ℕ
double_hash bs = (fnv1a_64 bs fnv_offset, fnv1a_64 bs (bit_xor fnv_offset 0x6c62272e07bb0142))

unfoldable pub row_col : ℕ → ℕ → ℕ → ℕ → ℕ
row_col h_a h_b row w = (h_a + row * h_b % 2 ^ 64) % 2 ^ 64 % w

abbrev pub byte_index : ℕ → ℕ → ℕ → ℕ
byte_index row col half_w = row * half_w + col / 2

-- The nibble of a byte that holds a column, and the byte with that nibble set.
abbrev pub nibble_of : ℕ → ℕ → ℕ
nibble_of col byte = if col % 2 == 0 then byte % 16 else byte / 16 % 16

abbrev pub with_nibble : ℕ → ℕ → ℕ → ℕ
with_nibble col val byte =
    if col % 2 == 0 then byte / 16 % 16 * 16 + val % 16 else byte % 16 + val % 16 * 16

unfoldable pub nibble_get : Bytes → ℕ → ℕ → ℕ → Option ℕ
nibble_get counters row col half_w = elim (get_elem? counters (byte_index row col half_w)) [
  | none ↦ none
  | some byte ↦ some (nibble_of col byte)
]

unfoldable pub nibble_set : Bytes → ℕ → ℕ → ℕ → ℕ → Option Bytes
nibble_set counters row col half_w val = elim (get_elem? counters (byte_index row col half_w)) [
  | none ↦ none
  | some byte ↦ some (Common.set counters (byte_index row col half_w) (with_nibble col val byte))
]

pub record CountMinSketch : Type 0 where
  pub counters : Bytes
  pub w : ℕ
  pub half_w : ℕ
  pub additions : ℕ
  pub sample_size : ℕ

-- `next_power_of_two` of a number up to 2^rounds
unfoldable pub power_from : ℕ → ℕ → ℕ → ℕ
power_from zero p n = p
power_from (suc rounds) p n = let rest = power_from rounds (p * 2) n in if leb n p then p else rest

unfoldable pub new : ℕ → CountMinSketch
new capacity =
    let w = max (power_from 64 1 capacity) 1 in
    record {
      counters = replicate (max (depth * (w / 2)) 1) 0;
      w = w;
      half_w = max (w / 2) 1;
      additions = 0;
      sample_size = capacity * 10;
    }

-- The counter of one row incremented, unless it is 15.
unfoldable pub increment_row : ℕ → ℕ → ℕ → Bytes → Option Bytes
increment_row col half_w row counters = elim (nibble_get counters row col half_w) [
  | none ↦ none
  | some cur ↦ if ltb cur 15 then nibble_set counters row col half_w (cur + 1) else some counters
]

-- The loop of `increment` over the rows, with the column of each.
unfoldable pub increment_rows : (ℕ → ℕ) → ℕ → List ℕ → Bytes → Option Bytes
increment_rows cols half_w [] counters = some counters
increment_rows cols half_w (row ∷ rows) counters =
    elim (increment_row (cols row) half_w row counters) [
      | none ↦ none
      | some next ↦ increment_rows cols half_w rows next
    ]

abbrev pub rows : List ℕ
rows = 0 ∷ 1 ∷ 2 ∷ 3 ∷ []

-- The columns of a key.
unfoldable pub columns : Bytes → CountMinSketch → ℕ → ℕ
columns key_bytes s row = row_col (double_hash key_bytes).0 (double_hash key_bytes).1 row s.w

unfoldable pub halve : ℕ → ℕ
halve byte = byte / 16 % 16 / 2 * 16 + byte % 16 / 2

unfoldable pub age : CountMinSketch → CountMinSketch
age s = record s { counters = map halve s.counters; additions = 0 }

unfoldable pub increment : Bytes → CountMinSketch → Option CountMinSketch
increment key_bytes s = elim (increment_rows (columns key_bytes s) s.half_w rows s.counters) [
  | none ↦ none
  | some counters ↦
      let s' : CountMinSketch = record s { counters = counters; additions = s.additions + 1 } in
      some (if leb s.sample_size (s.additions + 1) then age s' else s')
]

-- The loop of `estimate`, from the smallest counter so far.
unfoldable pub estimate_rows : (ℕ → ℕ) → ℕ → List ℕ → Bytes → ℕ → Option ℕ
estimate_rows cols half_w [] counters min_val = some min_val
estimate_rows cols half_w (row ∷ rows) counters min_val =
    elim (nibble_get counters row (cols row) half_w) [
      | none ↦ none
      | some val ↦
          estimate_rows cols half_w rows counters (if ltb val min_val then val else min_val)
    ]

unfoldable pub estimate : Bytes → CountMinSketch → Option ℕ
estimate key_bytes s = estimate_rows (columns key_bytes s) s.half_w rows s.counters (2 ^ 64 - 1)

unfoldable pub clear : CountMinSketch → CountMinSketch
clear s = record s { counters = map (λ b. 0) s.counters; additions = 0 }
