-- ===== src/Columnar/Predicate/Totality.antt =====
-- Where `evaluate_batch` gives a mask, and how long it is.
use mathlib.Core.Option
use oxistore.Common.{
  ℕ, zero, suc, ◌≡◌, refl, sym, ◌∙◌, ap, true, false, not, ◌&&◌, ◌||◌, some, List, [], ◌∷◌, Result,
  ok, map_err, replicate, map, length, arith,
}
use oxistore.Common.Assoc.{lookup}
use oxistore.Common.Bytes.{bytes_dec}
use oxistore.Columnar.Ordered.{Ordered, ints, byte_strings}
use oxistore.Columnar.Arrow.{
  Array, BooleanArray, Kernel, IsKernel, Compute, IsCompute, lift2, zip_with,
}
use oxistore.Columnar.Predicate.Rows.{
  is_utf8, apply_cmp, evaluate_cmp_column, evaluate_batch, fold_and, fold_or,
}
use oxistore.Columnar.Predicate.{
  CmpOp, eq, ne, lt, le, gt, ge, Scalar, int32, int64, bytes, Predicate, Predicates, cmp, and, or,
  neg, everything, nothing, nil, cons, ColumnarError, arrow, Column, int32_array, int64_array,
  string_array, RecordBatch,
}

-- The column has the scalar's type, and a row for each row of the batch. Float columns are left out.
abbrev pub Fits : {F32 F64 : Type 0} → ℕ → Column F32 F64 → Scalar F32 F64 → Type 0
Fits rows (int32_array col) (int32 v) = length col ≡ rows
Fits rows (int64_array col) (int64 v) = length col ≡ rows
Fits rows (string_array col) (bytes v) = (length col ≡ rows) × (is_utf8 v ≡ true)
Fits _ _ _ = ⊥

-- Each column that is named is in the batch and fits.
unfoldable mutual
  pub IsWellTyped : {F32 F64 : Type 0} → RecordBatch F32 F64 → Predicate F32 F64 → Type 0
  IsWellTyped {F32} {F64} batch (cmp column op value) =
      (col : Column F32 F64) × (lookup bytes_dec column batch.fields ≡ some col)
      × Fits batch.num_rows col value
  IsWellTyped batch (and preds) = AreWellTyped batch preds
  IsWellTyped batch (or preds) = AreWellTyped batch preds
  IsWellTyped batch (neg p) = IsWellTyped batch p
  IsWellTyped batch everything = Unit
  IsWellTyped batch nothing = Unit

  pub AreWellTyped : {F32 F64 : Type 0} → RecordBatch F32 F64 → Predicates F32 F64 → Type 0
  AreWellTyped batch nil = Unit
  AreWellTyped batch (cons p ps) = IsWellTyped batch p × AreWellTyped batch ps

-- A mask with this many rows.
abbrev pub GivesRows : {E : Type 0} → ℕ → Result (ColumnarError E) BooleanArray → Type 0
GivesRows rows r = (mask : BooleanArray) × (r ≡ ok mask) × (length mask ≡ rows)

length-map : {A B : Type 0} (f : A → B) (l : List A) → length (map f l) ≡ length l
length-map f [] = refl
length-map f (x ∷ l) = ap suc (length-map f l)

length-zip_with :
    {A B C : Type 0} (f : A → B → C) (l : List A) (m : List B)
    → length l ≡ length m
    → length (zip_with f l m) ≡ length l
length-zip_with f [] m h = refl
length-zip_with f (x ∷ l) [] h = absurd (omega arith)
length-zip_with f (x ∷ l) (y ∷ m) h = omega (arith, length-zip_with f l m)

length-replicate : {A : Type 0} (n : ℕ) (a : A) → length (replicate n a) ≡ n
length-replicate zero a = refl
length-replicate (suc n) a = ap suc (length-replicate n a)

apply_cmp-rows :
    {E T : Type 0} (o : Ordered T) (k : Kernel E T)
    → IsKernel o k
    → (col : Array T) (op : CmpOp) (v : T) → GivesRows (length col) (apply_cmp k col op v)
unfolding apply_cmp
apply_cmp-rows o k laws col eq v = (_, ap (map_err arrow) (laws.eq_result col v), length-map _ col)
apply_cmp-rows o k laws col ne v = (_, ap (map_err arrow) (laws.neq_result col v), length-map _ col)
apply_cmp-rows o k laws col lt v = (_, ap (map_err arrow) (laws.lt_result col v), length-map _ col)
apply_cmp-rows o k laws col le v =
    (_, ap (map_err arrow) (laws.lt_eq_result col v), length-map _ col)
apply_cmp-rows o k laws col gt v = (_, ap (map_err arrow) (laws.gt_result col v), length-map _ col)
apply_cmp-rows o k laws col ge v =
    (_, ap (map_err arrow) (laws.gt_eq_result col v), length-map _ col)

module _ {E F32 F64 : Type 0} (k : Compute E F32 F64) (laws : IsCompute k) where
  evaluate_cmp_column-rows :
      (rows : ℕ) (col : Column F32 F64) (op : CmpOp) (v : Scalar F32 F64)
      → Fits rows col v
      → GivesRows rows (evaluate_cmp_column k col op v)
  unfolding evaluate_cmp_column
  evaluate_cmp_column-rows rows (int32_array col) op (int32 v) h =
      rw (← h) (apply_cmp-rows ints k.int32 laws.int32_kernel col op v)
  evaluate_cmp_column-rows rows (int64_array col) op (int64 v) h =
      rw (← h) (apply_cmp-rows ints k.int64 laws.int64_kernel col op v)
  evaluate_cmp_column-rows rows (string_array col) op (bytes v) h =
      rw (← h.0, h.1) (apply_cmp-rows byte_strings k.utf8 laws.utf8_kernel col op v)
  evaluate_cmp_column-rows rows _ op v h = absurd h

  and_kernel-rows :
      (a b : BooleanArray) (rows : ℕ)
      → length a ≡ rows
      → length b ≡ rows
      → GivesRows rows (map_err arrow (k.and_kernel a b))
  and_kernel-rows a b rows h h' = (
    zip_with (lift2 (◌&&◌)) a b,
    ground (arith, laws.and_result a b),
    length-zip_with _ a b (h ∙ sym h') ∙ h,
  )

  or_kernel-rows :
      (a b : BooleanArray) (rows : ℕ)
      → length a ≡ rows
      → length b ≡ rows
      → GivesRows rows (map_err arrow (k.or_kernel a b))
  or_kernel-rows a b rows h h' = (
    zip_with (lift2 (◌||◌)) a b,
    ground (arith, laws.or_result a b),
    length-zip_with _ a b (h ∙ sym h') ∙ h,
  )

  -- By induction on the predicate and on the vectors in it.
  mutual
    unfolding evaluate_batch IsWellTyped

    batch-rows :
        (batch : RecordBatch F32 F64) (p : Predicate F32 F64)
        → IsWellTyped batch p
        → GivesRows batch.num_rows (evaluate_batch k batch p)
    batch-rows batch (cmp column op v) (col, is_col, fits) =
        let (mask, is_mask, rows) = evaluate_cmp_column-rows batch.num_rows col op v fits in
        (mask, ground arith, rows)
    batch-rows batch (and ps) t =
        and-rows batch ps (replicate batch.num_rows (some true)) t
          (length-replicate batch.num_rows _)
    batch-rows batch (or ps) t =
        or-rows batch ps (replicate batch.num_rows (some false)) t
          (length-replicate batch.num_rows _)
    batch-rows batch (neg p) t =
        let (mask, is_mask, rows) = batch-rows batch p t in
        (map (Option.map not) mask, ground (arith, laws.not_result mask), length-map _ mask ∙ rows)
    batch-rows batch everything t = (_, refl, length-replicate batch.num_rows _)
    batch-rows batch nothing t = (_, refl, length-replicate batch.num_rows _)

    and-rows :
        (batch : RecordBatch F32 F64) (ps : Predicates F32 F64) (result : BooleanArray)
        → AreWellTyped batch ps
        → length result ≡ batch.num_rows
        → GivesRows batch.num_rows (fold_and k batch ps result)
    and-rows batch nil result t h = (result, refl, h)
    and-rows batch (cons p ps) result t h =
        let (mask, is_mask, rows) = batch-rows batch p t.0 in
        let (next, is_next, rows') = and_kernel-rows result mask batch.num_rows h rows in
        let (last, is_last, rows'') = and-rows batch ps next t.1 rows' in
        (last, ground arith, rows'')

    or-rows :
        (batch : RecordBatch F32 F64) (ps : Predicates F32 F64) (result : BooleanArray)
        → AreWellTyped batch ps
        → length result ≡ batch.num_rows
        → GivesRows batch.num_rows (fold_or k batch ps result)
    or-rows batch nil result t h = (result, refl, h)
    or-rows batch (cons p ps) result t h =
        let (mask, is_mask, rows) = batch-rows batch p t.0 in
        let (next, is_next, rows') = or_kernel-rows result mask batch.num_rows h rows in
        let (last, is_last, rows'') = or-rows batch ps next t.1 rows' in
        (last, ground arith, rows'')

  -- A predicate whose comparisons fit the columns of the batch (none with a float column) is
  -- evaluated without an error, to a mask with one place for each row.
  pub evaluate_batch-total :
      (batch : RecordBatch F32 F64) (p : Predicate F32 F64)
      → IsWellTyped batch p
      → (mask : BooleanArray) × (evaluate_batch k batch p ≡ ok mask)
        × (length mask ≡ batch.num_rows)
  evaluate_batch-total batch p t = batch-rows batch p t
