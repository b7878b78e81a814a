-- ===== src/Common/Assoc.antt =====
-- Association lists over keys with a decidable equality: the entries of a map, in its order.
use oxistore.Common.Lists.{length, tail}
use Prim.Native.Nat.{◌+◌, ◌≤◌}
use mathlib.Core.Path.{◌≡◌, refl, sym}
use mathlib.Core.Logic.{◌≢◌, ite, if_pos, if_neg}
use mathlib.Core.List.{List, [], ◌∷◌, ◌++◌}
use mathlib.Core.Option.{Option, none, some}
use native.Mathlib.Omega.{arith}

module _ {K V : Type 0} (dec : Discrete K) where
  unfoldable pub lookup : K → List (K × V) → Option V
  lookup k [] = none
  lookup k ((j, v) ∷ l) = ite (dec j k) (some v) (lookup k l)

  -- the entries of the other keys
  unfoldable pub without : K → List (K × V) → List (K × V)
  without k [] = []
  without k ((j, v) ∷ l) = ite (dec j k) (without k l) ((j, v) ∷ without k l)

  -- no key twice
  abbrev pub Distinct : List (K × V) → Type 0
  Distinct [] = Unit
  Distinct ((j, v) ∷ l) = (lookup j l ≡ none) × Distinct l

module _ {K V : Type 0} (dec : Discrete K) where
  pub lookup-without_self : (k : K) (l : List (K × V)) → lookup dec k (without dec k l) ≡ none
  unfolding lookup without
  lookup-without_self k [] = refl
  lookup-without_self k ((j, v) ∷ l) = ground (arith, lookup-without_self k l)

  pub lookup-without_ne :
      (k q : K) (l : List (K × V)) → k ≢ q → lookup dec q (without dec k l) ≡ lookup dec q l
  unfolding lookup without
  lookup-without_ne k q [] h = refl
  lookup-without_ne k q ((j, v) ∷ l) h = ground (arith, lookup-without_ne k q l)

  pub lookup-append :
      (q : K) (l m : List (K × V))
      → lookup dec q (l ++ m) ≡ (elim (lookup dec q l) [ none ↦ lookup dec q m | some v ↦ some v ])
  unfolding lookup
  lookup-append q [] m = refl
  lookup-append q ((j, v) ∷ l) m = ground (arith, lookup-append q l m)

  pub without_absent : (k : K) (l : List (K × V)) → lookup dec k l ≡ none → without dec k l ≡ l
  unfolding lookup without
  without_absent k [] h = refl
  without_absent k ((j, v) ∷ l) h = ground (arith, without_absent k l)

  pub length-without_le : (k : K) (l : List (K × V)) → length (without dec k l) ≤ length l
  unfolding without
  length-without_le k [] = omega arith
  length-without_le k ((j, v) ∷ l) = ground (arith, length-without_le k l)

  pub length-without_present :
      (k : K) (l : List (K × V)) (v : V)
      → Distinct dec l
      → lookup dec k l ≡ some v
      → length (without dec k l) + 1 ≡ length l
  unfolding lookup without
  length-without_present k [] v d h = cc
  length-without_present k ((j, w) ∷ l) v d h = elim (dec j k) [
    | yes p ↦ rw (if_pos _ p) (
        let absent : lookup dec k l ≡ none = rw (← p) d.0 in
        rw (without_absent k l absent) (omega arith))
    | no p ↦ rw (if_neg _ p) (omega (arith, length-without_present k l v d.1 (ground arith)))
  ]

  pub Distinct-without :
      (k : K) (l : List (K × V)) → Distinct dec l → Distinct dec (without dec k l)
  unfolding lookup without
  Distinct-without k [] d = tt
  Distinct-without k ((j, v) ∷ l) d = elim (dec j k) [
    | yes p ↦ rw (if_pos _ p) (Distinct-without k l d.1)
    | no p ↦
        rw (if_neg _ p)
          (rw (lookup-without_ne k j l (λ e. p (sym e))) d.0, Distinct-without k l d.1)
  ]

  pub Distinct-snoc :
      (k : K) (v : V) (l : List (K × V))
      → Distinct dec l
      → lookup dec k l ≡ none
      → Distinct dec (l ++ (k, v) ∷ [])
  unfolding lookup
  Distinct-snoc k v [] d h = (refl, tt)
  Distinct-snoc k v ((j, w) ∷ l) d h =
      (ground (arith, lookup-append j l ((k, v) ∷ [])), Distinct-snoc k v l d.1 (ground arith))

  pub lookup-snoc_self :
      (k : K) (v : V) (l : List (K × V)) → lookup dec k (without dec k l ++ (k, v) ∷ []) ≡ some v
  unfolding lookup
  lookup-snoc_self k v l =
      ground (arith, lookup-append k (without dec k l) ((k, v) ∷ []), lookup-without_self k l)

  pub lookup-snoc_absent :
      (k : K) (v : V) (l : List (K × V))
      → lookup dec k l ≡ none
      → lookup dec k (l ++ (k, v) ∷ []) ≡ some v
  unfolding lookup
  lookup-snoc_absent k v l h = ground (arith, lookup-append k l ((k, v) ∷ []))

  pub lookup-tail_absent :
      (k : K) (l : List (K × V)) → lookup dec k l ≡ none → lookup dec k (tail l) ≡ none
  unfolding lookup
  lookup-tail_absent k [] h = refl
  lookup-tail_absent k ((j, v) ∷ l) h = ground arith

  pub lookup-snoc_ne :
      (k q : K) (v : V) (l : List (K × V))
      → k ≢ q
      → lookup dec q (l ++ (k, v) ∷ []) ≡ lookup dec q l
  unfolding lookup
  lookup-snoc_ne k q v l h = ground (arith, lookup-append q l ((k, v) ∷ []))
