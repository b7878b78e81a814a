-- ===== src/Columnar/Arrow.antt =====
-- What the source uses of arrow: arrays of nullable values, the comparison kernels and the Boolean
-- kernels, which are parameters with their documented results.
use mathlib.Core.Option
use oxistore.Common.{
  ◌≡◌, ◌&&◌, ◌||◌, not, Bool, Option, none, some, List, [], ◌∷◌, map, Result, ok, err, length,
  if◌then◌else◌, ◌==◌,
}
use oxistore.Common.Bytes.{Bytes}
use oxistore.Columnar.Ordered.{ℤ, Ordered, ints, byte_strings}

abbrev pub Array : Type 0 → Type 0
Array T = List (Option T)

abbrev pub BooleanArray : Type 0
BooleanArray = Array Bool

-- `arrow::compute::kernels::cmp` on a column and a scalar
pub record Kernel (E T : Type 0) : Type 0 where
  pub eq : Array T → T → Result E BooleanArray
  pub neq : Array T → T → Result E BooleanArray
  pub lt : Array T → T → Result E BooleanArray
  pub lt_eq : Array T → T → Result E BooleanArray
  pub gt : Array T → T → Result E BooleanArray
  pub gt_eq : Array T → T → Result E BooleanArray

pub record Compute (E F32 F64 : Type 0) : Type 0 where
  pub int32 : Kernel E ℤ
  pub int64 : Kernel E ℤ
  pub float32 : Kernel E F32
  pub float64 : Kernel E F64
  pub utf8 : Kernel E Bytes
  pub and_kernel : BooleanArray → BooleanArray → Result E BooleanArray
  pub or_kernel : BooleanArray → BooleanArray → Result E BooleanArray
  pub not_kernel : BooleanArray → Result E BooleanArray

-- A null operand gives a null.
abbrev pub lift2 : (Bool → Bool → Bool) → Option Bool → Option Bool → Option Bool
lift2 f none y = none
lift2 f (some a) none = none
lift2 f (some a) (some b) = some (f a b)

abbrev pub zip_with : {A B C : Type 0} → (A → B → C) → List A → List B → List C
zip_with f [] ys = []
zip_with f (x ∷ xs) [] = []
zip_with f (x ∷ xs) (y ∷ ys) = f x y ∷ zip_with f xs ys

pub record IsKernel {E T : Type 0} (o : Ordered T) (k : Kernel E T) : Type 0 where
  pub eq_result : (c : Array T) (v : T) → k.eq c v ≡ ok (map (Option.map (λ x. o.eqb x v)) c)
  pub neq_result :
      (c : Array T) (v : T) → k.neq c v ≡ ok (map (Option.map (λ x. not (o.eqb x v))) c)
  pub lt_result : (c : Array T) (v : T) → k.lt c v ≡ ok (map (Option.map (λ x. o.ltb x v)) c)
  pub lt_eq_result : (c : Array T) (v : T) → k.lt_eq c v ≡ ok (map (Option.map (λ x. o.leb x v)) c)
  pub gt_result : (c : Array T) (v : T) → k.gt c v ≡ ok (map (Option.map (λ x. o.ltb v x)) c)
  pub gt_eq_result : (c : Array T) (v : T) → k.gt_eq c v ≡ ok (map (Option.map (λ x. o.leb v x)) c)

-- Nothing is assumed of the float kernels.
pub record IsCompute {E F32 F64 : Type 0} (k : Compute E F32 F64) : Type 0 where
  pub int32_kernel : IsKernel ints k.int32
  pub int64_kernel : IsKernel ints k.int64
  pub utf8_kernel : IsKernel byte_strings k.utf8
  -- the error for arrays of different lengths
  pub mismatch : E
  pub and_result :
      (a b : BooleanArray)
      → k.and_kernel a b
        ≡ (if length a == length b then ok (zip_with (lift2 (◌&&◌)) a b) else err mismatch)
  pub or_result :
      (a b : BooleanArray)
      → k.or_kernel a b
        ≡ (if length a == length b then ok (zip_with (lift2 (◌||◌)) a b) else err mismatch)
  pub not_result : (a : BooleanArray) → k.not_kernel a ≡ ok (map (Option.map not) a)
