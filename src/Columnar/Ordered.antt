-- ===== src/Columnar/Ordered.antt =====
-- The ordered values that predicates compare: signed integers and byte strings.
use oxistore.Common.{
  ℕ, ◌≡◌, refl, ap, Bool, true, false, not, [], ◌∷◌, ltb, leb, ◌==◌, arith, if◌then◌else◌,
}
use oxistore.Common.Bytes.{Bytes, ltb_bytes, leb_bytes}

-- `i32` and `i64`: comparisons do not depend on the width.
pub data ℤ : Type 0 where
  pos : ℕ → ℤ
  negsuc : ℕ → ℤ

unfoldable pub leb_int : ℤ → ℤ → Bool
leb_int (pos a) (pos b) = leb a b
leb_int (pos a) (negsuc b) = false
leb_int (negsuc a) (pos b) = true
leb_int (negsuc a) (negsuc b) = leb b a

unfoldable pub ltb_int : ℤ → ℤ → Bool
ltb_int (pos a) (pos b) = ltb a b
ltb_int (pos a) (negsuc b) = false
ltb_int (negsuc a) (pos b) = true
ltb_int (negsuc a) (negsuc b) = ltb b a

unfoldable pub eqb_int : ℤ → ℤ → Bool
eqb_int (pos a) (pos b) = a == b
eqb_int (pos a) (negsuc b) = false
eqb_int (negsuc a) (pos b) = false
eqb_int (negsuc a) (negsuc b) = a == b

unfoldable pub eqb_bytes : Bytes → Bytes → Bool
eqb_bytes [] [] = true
eqb_bytes [] (b ∷ bs) = false
eqb_bytes (a ∷ as_) [] = false
eqb_bytes (a ∷ as_) (b ∷ bs) = let rest = eqb_bytes as_ bs in if a == b then rest else false

-- `PartialOrd + PartialEq`: `==`, `<` and `<=`; `a > b` is `b < a`, and `a >= b` is `b <= a`.
pub record Ordered (T : Type 0) : Type 0 where
  pub eqb : T → T → Bool
  pub ltb : T → T → Bool
  pub leb : T → T → Bool

abbrev pub ints : Ordered ℤ
ints = record { eqb = eqb_int; ltb = ltb_int; leb = leb_int }

abbrev pub byte_strings : Ordered Bytes
byte_strings = record { eqb = eqb_bytes; ltb = ltb_bytes; leb = leb_bytes }

-- What a total order promises.
pub record IsOrdered {T : Type 0} (o : Ordered T) : Type 0 where
  pub eqb_sound : (a b : T) → o.eqb a b ≡ true → a ≡ b
  pub eqb_complete : (a : T) → o.eqb a a ≡ true
  pub ltb_not : (a b : T) → o.ltb a b ≡ not (o.leb b a)
  pub antisym : (a b : T) → o.leb a b ≡ true → o.leb b a ≡ true → a ≡ b
  pub trans : (a b c : T) → o.leb a b ≡ true → o.leb b c ≡ true → o.leb a c ≡ true

eqb_int_sound : (a b : ℤ) → eqb_int a b ≡ true → a ≡ b
unfolding eqb_int
eqb_int_sound (pos a) (pos b) h = ground arith
eqb_int_sound (pos a) (negsuc b) h = ground arith
eqb_int_sound (negsuc a) (pos b) h = ground arith
eqb_int_sound (negsuc a) (negsuc b) h = ground arith

eqb_int_complete : (a : ℤ) → eqb_int a a ≡ true
unfolding eqb_int
eqb_int_complete (pos a) = ground arith
eqb_int_complete (negsuc a) = ground arith

ltb_int-not : (a b : ℤ) → ltb_int a b ≡ not (leb_int b a)
unfolding ltb_int leb_int
ltb_int-not (pos a) (pos b) = ground arith
ltb_int-not (pos a) (negsuc b) = refl
ltb_int-not (negsuc a) (pos b) = refl
ltb_int-not (negsuc a) (negsuc b) = ground arith

leb_int-antisym : (a b : ℤ) → leb_int a b ≡ true → leb_int b a ≡ true → a ≡ b
unfolding leb_int
leb_int-antisym (pos a) (pos b) h k = ground arith
leb_int-antisym (pos a) (negsuc b) h k = ground arith
leb_int-antisym (negsuc a) (pos b) h k = ground arith
leb_int-antisym (negsuc a) (negsuc b) h k = ground arith

leb_int_trans : (a b c : ℤ) → leb_int a b ≡ true → leb_int b c ≡ true → leb_int a c ≡ true
unfolding leb_int
leb_int_trans (pos a) (pos b) (pos c) h k = ground arith
leb_int_trans (pos a) (pos b) (negsuc c) h k = ground arith
leb_int_trans (pos a) (negsuc b) c h k = ground arith
leb_int_trans (negsuc a) (pos b) (pos c) h k = refl
leb_int_trans (negsuc a) (pos b) (negsuc c) h k = ground arith
leb_int_trans (negsuc a) (negsuc b) (pos c) h k = refl
leb_int_trans (negsuc a) (negsuc b) (negsuc c) h k = ground arith

pub ints-IsOrdered : IsOrdered ints
ints-IsOrdered = record {
  eqb_sound = eqb_int_sound;
  eqb_complete = eqb_int_complete;
  ltb_not = ltb_int-not;
  antisym = leb_int-antisym;
  trans = leb_int_trans;
}

eqb_bytes_sound : (a b : Bytes) → eqb_bytes a b ≡ true → a ≡ b
unfolding eqb_bytes
eqb_bytes_sound [] [] h = refl
eqb_bytes_sound [] (y ∷ b) h = ground arith
eqb_bytes_sound (x ∷ a) [] h = ground arith
eqb_bytes_sound (x ∷ a) (y ∷ b) h = ground (arith, eqb_bytes_sound a b)

eqb_bytes_complete : (a : Bytes) → eqb_bytes a a ≡ true
unfolding eqb_bytes
eqb_bytes_complete [] = refl
eqb_bytes_complete (x ∷ a) = ground (arith, eqb_bytes_complete a)

not-not : (b : Bool) → b ≡ not (not b)
not-not true = refl
not-not false = refl

leb_bytes-antisym : (a b : Bytes) → ltb_bytes b a ≡ false → ltb_bytes a b ≡ false → a ≡ b
unfolding ltb_bytes
leb_bytes-antisym [] [] h k = refl
leb_bytes-antisym [] (y ∷ b) h k = ground arith
leb_bytes-antisym (x ∷ a) [] h k = ground arith
leb_bytes-antisym (x ∷ a) (y ∷ b) h k = ground (arith, leb_bytes-antisym a b)

leb_bytes_trans :
    (a b c : Bytes) → ltb_bytes b a ≡ false → ltb_bytes c b ≡ false → ltb_bytes c a ≡ false
unfolding ltb_bytes
leb_bytes_trans [] b [] h k = refl
leb_bytes_trans [] b (z ∷ c) h k = refl
leb_bytes_trans (x ∷ a) [] c h k = ground arith
leb_bytes_trans (x ∷ a) (y ∷ b) [] h k = ground arith
leb_bytes_trans (x ∷ a) (y ∷ b) (z ∷ c) h k = ground (arith, leb_bytes_trans a b c)

pub byte_strings-IsOrdered : IsOrdered byte_strings
byte_strings-IsOrdered = record {
  eqb_sound = eqb_bytes_sound;
  eqb_complete = eqb_bytes_complete;
  ltb_not = λ a b. not-not (ltb_bytes a b);
  antisym = λ a b h k. leb_bytes-antisym a b (ground arith) (ground arith);
  trans = λ a b c h k. ap not (leb_bytes_trans a b c (ground arith) (ground arith));
}
