-- ===== src/Columnar/Predicate/Rows.antt =====
-- `Predicate::evaluate_batch` of crates/oxistore-columnar/src/predicate.rs: the mask of the rows of a
-- batch.
use oxistore.Common.{
  ℕ, zero, suc, Bool, true, false, ◌&&◌, Option, none, some, [], ◌∷◌, ltb, leb, ◌==◌, if◌then◌else◌,
  Result, ok, err, map_err, replicate, ◌>>=◌,
}
use oxistore.Common.Assoc.{lookup}
use oxistore.Common.Bytes.{Bytes, bytes_dec}
use oxistore.Columnar.Arrow.{Array, BooleanArray, Kernel, Compute}
use oxistore.Columnar.Predicate.{
  CmpOp, eq, ne, lt, le, gt, ge, Scalar, int32, int64, float32, float64, bytes, Predicate,
  Predicates, cmp, and, or, neg, everything, nothing, nil, cons, ColumnarError, arrow,
  schema_mismatch, Column, int32_array, int64_array, float32_array, float64_array, string_array,
  RecordBatch,
}

-- The first byte of a UTF-8 sequence: how many bytes follow, and the bounds of the next one.
unfoldable pub utf8_lead : ℕ → Option (ℕ × ℕ × ℕ)
utf8_lead b =
    if ltb b 0x80
    then some (0, 0, 0)
    else if ltb b 0xC2
    then none
    else if ltb b 0xE0
    then some (1, 0x80, 0xBF)
    else if b == 0xE0
    then some (2, 0xA0, 0xBF)
    else if b == 0xED
    then some (2, 0x80, 0x9F)
    else if ltb b 0xF0
    then some (2, 0x80, 0xBF)
    else if b == 0xF0
    then some (3, 0x90, 0xBF)
    else if ltb b 0xF4
    then some (3, 0x80, 0xBF)
    else if b == 0xF4
    then some (3, 0x80, 0x8F)
    else none

unfoldable pub utf8_rest : ℕ → ℕ → ℕ → Bytes → Bool
utf8_rest n lo hi [] = n == 0
utf8_rest zero lo hi (b ∷ bs) = elim (utf8_lead b) [
  | none ↦ false
  | some (n, lo', hi') ↦ utf8_rest n lo' hi' bs
]
utf8_rest (suc n) lo hi (b ∷ bs) = leb lo b && leb b hi && utf8_rest n 0x80 0xBF bs

-- `std::str::from_utf8(v).is_ok()`
unfoldable pub is_utf8 : Bytes → Bool
is_utf8 = utf8_rest 0 0 0

-- `apply_cmp_i32`, `apply_cmp_i64`, `apply_cmp_f32`, `apply_cmp_f64`, `apply_cmp_str`
unfoldable pub apply_cmp :
    {E T : Type 0} → Kernel E T → Array T → CmpOp → T → Result (ColumnarError E) BooleanArray
apply_cmp k col eq rhs = map_err arrow (k.eq col rhs)
apply_cmp k col ne rhs = map_err arrow (k.neq col rhs)
apply_cmp k col lt rhs = map_err arrow (k.lt col rhs)
apply_cmp k col le rhs = map_err arrow (k.lt_eq col rhs)
apply_cmp k col gt rhs = map_err arrow (k.gt col rhs)
apply_cmp k col ge rhs = map_err arrow (k.gt_eq col rhs)

module _ {E F32 F64 : Type 0} (k : Compute E F32 F64) where
  unfoldable pub evaluate_cmp_column :
      Column F32 F64 → CmpOp → Scalar F32 F64 → Result (ColumnarError E) BooleanArray
  evaluate_cmp_column (int32_array col) op (int32 v) = apply_cmp k.int32 col op v
  evaluate_cmp_column (int64_array col) op (int64 v) = apply_cmp k.int64 col op v
  evaluate_cmp_column (float32_array col) op (float32 v) = apply_cmp k.float32 col op v
  evaluate_cmp_column (float64_array col) op (float64 v) = apply_cmp k.float64 col op v
  evaluate_cmp_column (string_array col) op (bytes v) =
      if is_utf8 v then apply_cmp k.utf8 col op v else err schema_mismatch
  evaluate_cmp_column _ op v = err schema_mismatch

  unfoldable mutual
    pub evaluate_batch :
        RecordBatch F32 F64 → Predicate F32 F64 → Result (ColumnarError E) BooleanArray
    evaluate_batch batch (cmp column op value) = elim (lookup bytes_dec column batch.fields) [
      | none ↦ err schema_mismatch
      | some col ↦ evaluate_cmp_column col op value
    ]
    evaluate_batch batch (and preds) = fold_and batch preds (replicate batch.num_rows (some true))
    evaluate_batch batch (or preds) = fold_or batch preds (replicate batch.num_rows (some false))
    evaluate_batch batch (neg p) = do
      mask ← evaluate_batch batch p
      map_err arrow (k.not_kernel mask)
    evaluate_batch batch everything = ok (replicate batch.num_rows (some true))
    evaluate_batch batch nothing = ok (replicate batch.num_rows (some false))

    -- The loops under `And` and `Or`.
    pub fold_and :
        RecordBatch F32 F64
        → Predicates F32 F64
        → BooleanArray
        → Result (ColumnarError E) BooleanArray
    fold_and batch nil result = ok result
    fold_and batch (cons p ps) result = do
      mask ← evaluate_batch batch p
      result' ← map_err arrow (k.and_kernel result mask)
      fold_and batch ps result'

    pub fold_or :
        RecordBatch F32 F64
        → Predicates F32 F64
        → BooleanArray
        → Result (ColumnarError E) BooleanArray
    fold_or batch nil result = ok result
    fold_or batch (cons p ps) result = do
      mask ← evaluate_batch batch p
      result' ← map_err arrow (k.or_kernel result mask)
      fold_or batch ps result'
