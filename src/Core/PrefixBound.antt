-- ===== src/Core/PrefixBound.antt =====
-- `prefix_upper_bound` of crates/oxistore-core/src/lib.rs: the exclusive upper key of a prefix scan.
use oxistore.Common.{
  ℕ, ◌+◌, ◌≡◌, refl, ◌↔◌, true, ◌&&◌, Option, none, some, List, [], ◌∷◌, ◌++◌, reverse,
  reverse-append, arith, ◌==◌, if◌then◌else◌, Option-cases, All, inl, inr,
}
use oxistore.Common.Bytes.{Bytes, AreBytes, ltb_bytes, leb_bytes, starts_with, ltb_bytes-nil}

-- The `while let` loop. `upper` is held back to front, so its head is `upper.last()`.
bound_loop : List ℕ → Option Bytes
bound_loop [] = none
bound_loop (last ∷ rest) =
    let popped = bound_loop rest in
    if last == 0xFF then popped else some (reverse ((last + 1) ∷ rest))

unfoldable pub prefix_upper_bound : Bytes → Option Bytes
unfolding bound_loop
prefix_upper_bound [] = none
prefix_upper_bound (b ∷ bs) = bound_loop (reverse (b ∷ bs))

-- The bound read from the front.
front_bound : Bytes → Option Bytes
front_bound [] = none
front_bound (x ∷ xs) = elim (front_bound xs) [
  | some u ↦ some (x ∷ u)
  | none ↦ if x == 0xFF then none else some ((x + 1) ∷ [])
]

bound_loop-snoc :
    (ys : List ℕ) (x : ℕ)
    → bound_loop (ys ++ x ∷ []) ≡ (elim (bound_loop ys) [
      | some u ↦ some (x ∷ u)
      | none ↦ if x == 0xFF then none else some ((x + 1) ∷ [])
    ])
unfolding bound_loop
bound_loop-snoc [] x = ground arith
bound_loop-snoc (y ∷ ys) x =
    ground (arith, bound_loop-snoc ys x, reverse-append ((y + 1) ∷ ys) (x ∷ []))

loop-eq-front : (xs : List ℕ) → bound_loop (reverse xs) ≡ front_bound xs
unfolding front_bound
loop-eq-front [] = unfold bound_loop in refl
loop-eq-front (x ∷ xs) =
    rw (reverse-append (x ∷ []) xs) (rw (bound_loop-snoc (reverse xs) x) (rw (loop-eq-front xs)))

prefix_upper_bound-eq-front : (p : Bytes) → prefix_upper_bound p ≡ front_bound p
unfolding prefix_upper_bound
prefix_upper_bound-eq-front [] = unfold front_bound in refl
prefix_upper_bound-eq-front (x ∷ xs) = loop-eq-front (x ∷ xs)

-- Without a bound every byte is 0xFF, and then the prefix is the least string that starts with it.
front_bound-none :
    (p k : Bytes) → AreBytes k → front_bound p ≡ none → starts_with k p ≡ leb_bytes p k
unfolding front_bound starts_with ltb_bytes
front_bound-none [] [] hk e = refl
front_bound-none [] (k ∷ ks) hk e = refl
front_bound-none (x ∷ xs) [] hk e = refl
front_bound-none (x ∷ xs) (k ∷ ks) hk e = ground (arith, front_bound-none xs ks)

front_bound-some :
    (p k hi : Bytes)
    → AreBytes k
    → front_bound p ≡ some hi
    → starts_with k p ≡ leb_bytes p k && ltb_bytes k hi
unfolding front_bound starts_with ltb_bytes
front_bound-some [] k hi hk e = ground arith
front_bound-some (x ∷ xs) [] hi hk e = refl
front_bound-some (x ∷ xs) (k ∷ ks) hi hk e = elim (Option-cases (front_bound xs)) [
  | inl empty ↦ ground (arith, front_bound-none xs ks, ltb_bytes-nil ks)
  | inr (u, found) ↦ ground (arith, front_bound-some xs ks u)
]

-- If the prefix has an upper bound `hi`, then a key starts with the prefix exactly when it lies
-- in the range from the prefix, inclusive, to `hi`, exclusive.
pub prefix_upper_bound-exact :
    (p k hi : Bytes)
    → AreBytes k
    → prefix_upper_bound p ≡ some hi
    → starts_with k p ≡ leb_bytes p k && ltb_bytes k hi
prefix_upper_bound-exact p k hi hk e =
    front_bound-some p k hi hk (rw prefix_upper_bound-eq-front at e)

-- The bytes are all 0xFF.
abbrev pub AllFf : Bytes → Type 0
AllFf = All (λ b. b ≡ 0xFF)

front_bound-none_iff : (p : Bytes) → (front_bound p ≡ none) ↔ AllFf p
unfolding front_bound
front_bound-none_iff [] = (λ _. tt, λ _. refl)
front_bound-none_iff (x ∷ xs) = (
  λ e. ground (arith, (front_bound-none_iff xs).0),
  λ h. ground (arith, (front_bound-none_iff xs).1),
)

-- There is no upper bound exactly when the prefix has no byte other than 0xFF.
pub prefix_upper_bound-none_iff : (p : Bytes) → (prefix_upper_bound p ≡ none) ↔ AllFf p
prefix_upper_bound-none_iff p = rw prefix_upper_bound-eq-front (front_bound-none_iff p)

front_bound-AreBytes :
    (p hi : Bytes) → AreBytes p → front_bound p ≡ some hi → AreBytes hi × (ltb_bytes p hi ≡ true)
unfolding front_bound ltb_bytes
front_bound-AreBytes [] hi h e = cc
front_bound-AreBytes (x ∷ xs) hi h e = elim (Option-cases (front_bound xs)) [
  | inl empty ↦ ground arith
  | inr (u, found) ↦ ground (arith, front_bound-AreBytes xs u)
]

-- The upper bound of a byte string is again a byte string (the increment does not overflow), and
-- it is greater than the prefix.
pub prefix_upper_bound-AreBytes :
    (p hi : Bytes)
    → AreBytes p
    → prefix_upper_bound p ≡ some hi
    → AreBytes hi × (ltb_bytes p hi ≡ true)
prefix_upper_bound-AreBytes p hi h e =
    front_bound-AreBytes p hi h (rw prefix_upper_bound-eq-front at e)
