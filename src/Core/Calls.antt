-- ===== src/Core/Calls.antt =====
-- Sequences of calls on a store, or on an adapter around one, and the same calls on a function from
-- keys to values.
pub mod Refinement
use oxistore.Common.{ℕ, ◌≤◌, Option, none, some, List, [], ◌∷◌, Result, ok, map_ok, ite}
use oxistore.Common.Bytes.{Bytes, bytes_dec}
use oxistore.Core.Store.{StoreError}

-- The calls that a store answers.
pub data Call : Type 0 where
  read : Bytes → Call
  write : Bytes → Bytes → Call
  remove : Bytes → Call
  flush : Call

-- The answer to a read, or `none` for the other calls.
abbrev pub Reply : Type 0
Reply = Result StoreError (Option Bytes)

abbrev pub without_value : {W : Type 0} → Result StoreError (Unit {0}) × W → Reply × W
without_value (r, w) = (map_ok (λ u. none) r, w)

-- Calls at the times at which they are made.
unfoldable pub run :
    {W : Type 0} → (ℕ → Call → W → Reply × W) → List (ℕ × Call) → W → List Reply × W
run step [] w = ([], w)
run step ((now, call) ∷ calls) w =
    let (r, w') = step now call w in let (rs, last) = run step calls w' in (r ∷ rs, last)

-- The times do not decrease.
abbrev pub Ascending : ℕ → List (ℕ × Call) → Type 0
Ascending t [] = Unit
Ascending t ((now, call) ∷ calls) = (t ≤ now) × Ascending now calls

-- The same calls on a function.
abbrev pub Values : Type 0
Values = Bytes → Option Bytes

abbrev pub update : Bytes → Option Bytes → Values → Values
update k o f q = ite (bytes_dec k q) o (f q)

abbrev pub answer : Call → Values → Option Bytes
answer (read k) f = f k
answer (write k v) f = none
answer (remove k) f = none
answer flush f = none

abbrev pub effect : Call → Values → Values
effect (read k) f = f
effect (write k v) f = update k (some v) f
effect (remove k) f = update k none f
effect flush f = f

abbrev pub replay : List (ℕ × Call) → Values → List Reply
replay [] f = []
replay ((now, call) ∷ calls) f = ok (answer call f) ∷ replay calls (effect call f)
