-- ===== src/Cache/Sketch/Doorkeeper.antt =====
-- `Doorkeeper` of crates/oxistore-cache/src/sketch.rs, a Bloom filter in 64-bit words. `1 << bit` masks are
-- written as recursion on the bit.
pub mod Membership
pub mod Memory
use oxistore.Common.{
  ℕ, zero, suc, ◌+◌, ◌*◌, ◌/◌, ◌%◌, Bool, true, false, Option, none, some, List, [], ◌∷◌, map,
  get_elem?, ◌==◌, if◌then◌else◌, max, replicate,
}
use oxistore.Common as Common
use oxistore.Common.Bytes.{Bytes}
use oxistore.Cache.Sketch.{double_hash, row_col, rows, power_from}

pub record Doorkeeper : Type 0 where
  pub bits : List ℕ
  pub num_bits : ℕ

unfoldable pub new : ℕ → Doorkeeper
new capacity =
    let num_bits = max (power_from 64 1 (capacity * 8)) 64 in
    record { bits = replicate (num_bits / 64) 0; num_bits = num_bits }

-- `word & (1 << bit) != 0`
unfoldable pub has_bit : ℕ → ℕ → Bool
has_bit zero word = word % 2 == 1
has_bit (suc bit) word = has_bit bit (word / 2)

-- `word | (1 << bit)`
unfoldable pub with_bit : ℕ → ℕ → ℕ
with_bit zero word = word / 2 * 2 + 1
with_bit (suc bit) word = word % 2 + 2 * with_bit bit (word / 2)

-- One round of the loop of `put`: whether all bits so far were set, and the words.
unfoldable pub put_row : ℕ → Bool → List ℕ → Option (Bool × List ℕ)
put_row pos all_set bits = elim (get_elem? bits (pos / 64)) [
  | none ↦ none
  | some word ↦
      if has_bit (pos % 64) word
      then some (all_set, bits)
      else some (false, Common.set bits (pos / 64) (with_bit (pos % 64) word))
]

abbrev pub then_rows :
    Option (Bool × List ℕ) → (Bool → List ℕ → Option (Bool × List ℕ)) → Option (Bool × List ℕ)
then_rows none f = none
then_rows (some (all_set, bits)) f = f all_set bits

unfoldable pub put_rows : (ℕ → ℕ) → List ℕ → Bool → List ℕ → Option (Bool × List ℕ)
put_rows positions [] all_set bits = some (all_set, bits)
put_rows positions (row ∷ rs) all_set bits =
    then_rows (put_row (positions row) all_set bits) (put_rows positions rs)

unfoldable pub positions : Bytes → Doorkeeper → ℕ → ℕ
positions key_bytes d row =
    row_col (double_hash key_bytes).0 (double_hash key_bytes).1 row d.num_bits

abbrev pub with_bits : Doorkeeper → Option (Bool × List ℕ) → Option (Bool × Doorkeeper)
with_bits d none = none
with_bits d (some (all_set, bits)) = some (all_set, record d { bits = bits })

unfoldable pub put : Bytes → Doorkeeper → Option (Bool × Doorkeeper)
put key_bytes d = with_bits d (put_rows (positions key_bytes d) rows true d.bits)

unfoldable pub clear : Doorkeeper → Doorkeeper
clear d = record d { bits = map (λ word. 0) d.bits }
