-- ===== src/Common/Bytes.antt =====
-- Byte strings (`&[u8]`, `Vec<u8>`) as lists of numbers below 256, in lexicographic order.
use oxistore.Common.Tests.{ltb, ◌==◌, if◌then◌else◌}
use oxistore.Common.Lists.{All}
use Prim.Native.Nat.{ℕ, ◌<◌}
use mathlib.Core.Path.{◌≡◌, refl}
use mathlib.Core.Bool.{Bool, true, false, not}
use mathlib.Core.List.{List, [], ◌∷◌}
use native.Mathlib.Decide.{ℕ_discrete}
use native.Mathlib.Omega.{arith}

abbrev pub Bytes : Type 0
Bytes = List ℕ

abbrev pub AreBytes : List ℕ → Type 0
AreBytes = All (λ b. b < 256)

-- `a < b` on slices
unfoldable pub ltb_bytes : List ℕ → List ℕ → Bool
ltb_bytes [] [] = false
ltb_bytes [] (b ∷ bs) = true
ltb_bytes (a ∷ as_) [] = false
ltb_bytes (a ∷ as_) (b ∷ bs) =
    let rest = ltb_bytes as_ bs in if ltb a b then true else if a == b then rest else false

-- `a <= b` on slices
abbrev pub leb_bytes : List ℕ → List ℕ → Bool
leb_bytes a b = not (ltb_bytes b a)

-- `key.starts_with(prefix)`
unfoldable pub starts_with : List ℕ → List ℕ → Bool
starts_with key [] = true
starts_with [] (p ∷ ps) = false
starts_with (k ∷ ks) (p ∷ ps) = let rest = starts_with ks ps in if k == p then rest else false

pub ltb_bytes_irrefl : (a : List ℕ) → ltb_bytes a a ≡ false
unfolding ltb_bytes
ltb_bytes_irrefl [] = refl
ltb_bytes_irrefl (x ∷ a) = ground (arith, ltb_bytes_irrefl a)

pub ltb_bytes-nil : (a : List ℕ) → ltb_bytes a [] ≡ false
unfolding ltb_bytes
ltb_bytes-nil [] = refl
ltb_bytes-nil (x ∷ a) = refl

unfoldable pub bytes_dec : Discrete (List ℕ)
unfolding ℕ_discrete
bytes_dec = hlevel ℕ_discrete
