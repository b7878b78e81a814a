-- ===== src/Columnar/Predicate/Pruning.antt =====
-- Pruning by statistics against the value of a predicate on the rows.
use oxistore.Common.{
  ℕ, zero, suc, ◌≡◌, ◌⊎◌, inl, inr, true, false, ◌&&◌, ◌||◌, Option, none, some, List, [], ◌∷◌, ok,
  map_err, replicate, get_elem?, arith, Bool-cases, Option-cases, Result-cases,
}
use oxistore.Common.Assoc.{lookup}
use oxistore.Common.Bytes.{Bytes, bytes_dec}
use oxistore.Columnar.Ordered.{ints, byte_strings, ints-IsOrdered, byte_strings-IsOrdered}
use oxistore.Columnar.Arrow.{BooleanArray, Compute, IsCompute, lift2, zip_with}
use oxistore.Columnar.Predicate.Rows.{evaluate_cmp_column, evaluate_batch, fold_and, fold_or}
use oxistore.Columnar.Predicate.Bounds.{NoTrue, Within, column_sound}
use oxistore.Columnar.Predicate.Groups.{
  position, apply_bytes_op, evaluate_cmp, cmp_might_match, row_group_might_match, all_might_match,
  any_might_match,
}
use oxistore.Columnar.Predicate.{
  CmpOp, Scalar, int32, int64, float32, float64, bytes, Predicate, Predicates, cmp, and, or, neg,
  everything, nothing, nil, cons, arrow, Column, int32_array, int64_array, string_array,
  RecordBatch, Float, Statistics, of_int32, of_int64, of_byte_array,
}

-- The mask of a conjunction or disjunction.
NoTrue-zip_and : (a b : BooleanArray) → NoTrue a ⊎ NoTrue b → NoTrue (zip_with (lift2 (◌&&◌)) a b)
NoTrue-zip_and [] b h = tt
NoTrue-zip_and (x ∷ a) [] h = tt
NoTrue-zip_and (none ∷ a) (y ∷ b) h = (ground arith, NoTrue-zip_and a b (ground arith))
NoTrue-zip_and (some x ∷ a) (none ∷ b) h = (ground arith, NoTrue-zip_and a b (ground arith))
NoTrue-zip_and (some x ∷ a) (some y ∷ b) h = (ground arith, NoTrue-zip_and a b (ground arith))

NoTrue-zip_or : (a b : BooleanArray) → NoTrue a → NoTrue b → NoTrue (zip_with (lift2 (◌||◌)) a b)
NoTrue-zip_or [] b h k = tt
NoTrue-zip_or (x ∷ a) [] h k = tt
NoTrue-zip_or (none ∷ a) (y ∷ b) h k = (ground arith, NoTrue-zip_or a b h.1 k.1)
NoTrue-zip_or (some x ∷ a) (none ∷ b) h k = (ground arith, NoTrue-zip_or a b h.1 k.1)
NoTrue-zip_or (some x ∷ a) (some y ∷ b) h k = (ground arith, NoTrue-zip_or a b h.1 k.1)

NoTrue-replicate : (n : ℕ) → NoTrue (replicate n (some false))
NoTrue-replicate zero = tt
NoTrue-replicate (suc n) = (ground arith, NoTrue-replicate n)

-- The statistics hold of a column of the same type. Of floats nothing is asked, since the theorems
-- leave out float comparisons.
abbrev pub Describes : {F32 F64 : Type 0} → Statistics F32 F64 → Column F32 F64 → Type 0
Describes (of_int32 s) (int32_array col) = Within ints s col
Describes (of_int64 s) (int64_array col) = Within ints s col
Describes (of_byte_array s) (string_array col) = Within byte_strings s col
Describes _ _ = Unit

abbrev pub IsExact : {F32 F64 : Type 0} → Scalar F32 F64 → Type 0
IsExact (float32 v) = ⊥
IsExact (float64 v) = ⊥
IsExact _ = Unit

-- No comparison with a float, except under a negation.
unfoldable mutual
  pub ComparesExactly : {F32 F64 : Type 0} → Predicate F32 F64 → Type 0
  ComparesExactly (cmp column op value) = IsExact value
  ComparesExactly (and preds) = AllCompareExactly preds
  ComparesExactly (or preds) = AllCompareExactly preds
  ComparesExactly _ = Unit

  pub AllCompareExactly : {F32 F64 : Type 0} → Predicates F32 F64 → Type 0
  AllCompareExactly nil = Unit
  AllCompareExactly (cons p ps) = ComparesExactly p × AllCompareExactly ps

-- The statistics of each column chunk, found by name, hold of the column of the batch.
abbrev pub DescribesBatch :
    {F32 F64 : Type 0}
    → List (Option (Statistics F32 F64))
    → List Bytes
    → RecordBatch F32 F64
    → Type 0
DescribesBatch {F32} {F64} rg schema batch =
    (column : Bytes) (i : ℕ) (stats : Statistics F32 F64) (col : Column F32 F64)
    → position column schema ≡ some i
    → get_elem? rg i ≡ some (some stats)
    → lookup bytes_dec column batch.fields ≡ some col
    → Describes stats col

module _ {E F32 F64 : Type 0} (f32 : Float F32) (f64 : Float F64) (k : Compute E F32 F64)
    (laws : IsCompute k) where
  evaluate_cmp_sound :
      (stats : Statistics F32 F64) (col : Column F32 F64) (op : CmpOp) (v : Scalar F32 F64)
      (mask : BooleanArray)
      → IsExact v
      → Describes stats col
      → evaluate_cmp f32 f64 stats op v ≡ false
      → evaluate_cmp_column k col op v ≡ ok mask
      → NoTrue mask
  unfolding evaluate_cmp evaluate_cmp_column apply_bytes_op
  evaluate_cmp_sound (of_int32 s) (int32_array col) op (int32 v) mask x d e h =
      column_sound ints ints-IsOrdered k.int32 laws.int32_kernel s col op v mask d e h
  evaluate_cmp_sound (of_int64 s) (int64_array col) op (int64 v) mask x d e h =
      column_sound ints ints-IsOrdered k.int64 laws.int64_kernel s col op v mask d e h
  evaluate_cmp_sound (of_byte_array s) (string_array col) op (bytes v) mask x d e h =
      column_sound byte_strings byte_strings-IsOrdered k.utf8 laws.utf8_kernel s col op v mask d e
        (ground arith)
  evaluate_cmp_sound stats col op v mask x d e h = absurd (ground arith)

  cmp_might_match_sound :
      (rg : List (Option (Statistics F32 F64))) (schema : List Bytes) (batch : RecordBatch F32 F64)
      (column : Bytes) (op : CmpOp) (v : Scalar F32 F64) (mask : BooleanArray)
      → DescribesBatch rg schema batch
      → IsExact v
      → cmp_might_match f32 f64 rg schema column op v ≡ false
      → evaluate_batch k batch (cmp column op v) ≡ ok mask
      → NoTrue mask
  unfolding cmp_might_match evaluate_batch
  cmp_might_match_sound rg schema batch column op v mask d x e h =
      elim (Option-cases (lookup bytes_dec column batch.fields)) [
        | inl missing ↦ absurd (ground arith)
        | inr (col, is_col) ↦ elim (Option-cases (position column schema)) [
          | inl missing ↦ absurd (ground arith)
          | inr (i, is_i) ↦ elim (Option-cases (get_elem? rg i)) [
            | inl missing ↦ absurd (ground arith)
            | inr (none, missing) ↦ absurd (ground arith)
            | inr (some stats, is_stats) ↦
                evaluate_cmp_sound stats col op v mask x (d column i stats col is_i is_stats is_col)
                  (ground arith) (ground arith)
          ]
        ]
      ]

  and_kernel-NoTrue :
      (a b mask : BooleanArray)
      → NoTrue a ⊎ NoTrue b
      → map_err arrow (k.and_kernel a b) ≡ ok mask
      → NoTrue mask
  and_kernel-NoTrue a b mask h e =
      let same : zip_with (lift2 (◌&&◌)) a b ≡ mask = ground (arith, laws.and_result a b) in
      rw (← same) (NoTrue-zip_and a b h)

  or_kernel-NoTrue :
      (a b mask : BooleanArray)
      → NoTrue a
      → NoTrue b
      → map_err arrow (k.or_kernel a b) ≡ ok mask
      → NoTrue mask
  or_kernel-NoTrue a b mask h h' e =
      let same : zip_with (lift2 (◌||◌)) a b ≡ mask = ground (arith, laws.or_result a b) in
      rw (← same) (NoTrue-zip_or a b h h')

  -- By induction on the predicate and on the vectors in it.
  mutual
    unfolding row_group_might_match evaluate_batch ComparesExactly

    group_sound :
        (rg : List (Option (Statistics F32 F64))) (schema : List Bytes)
        (batch : RecordBatch F32 F64)
        → DescribesBatch rg schema batch
        → (p : Predicate F32 F64) (mask : BooleanArray) → ComparesExactly p
        → row_group_might_match f32 f64 rg schema p ≡ false
        → evaluate_batch k batch p ≡ ok mask
        → NoTrue mask
    group_sound rg schema batch d (cmp column op v) mask x e h =
        cmp_might_match_sound rg schema batch column op v mask d x e h
    group_sound rg schema batch d (and ps) mask x e h =
        fold_and_sound rg schema batch d ps (replicate batch.num_rows (some true)) mask x (inr e) h
    group_sound rg schema batch d (or ps) mask x e h =
        fold_or_sound rg schema batch d ps (replicate batch.num_rows (some false)) mask x
          (NoTrue-replicate batch.num_rows) e h
    group_sound rg schema batch d (neg p) mask x e h = absurd (ground arith)
    group_sound rg schema batch d everything mask x e h = absurd (ground arith)
    group_sound rg schema batch d nothing mask x e h =
        let same : replicate batch.num_rows (some false) ≡ mask = ground arith in
        rw (← same) (NoTrue-replicate batch.num_rows)

    fold_and_sound :
        (rg : List (Option (Statistics F32 F64))) (schema : List Bytes)
        (batch : RecordBatch F32 F64)
        → DescribesBatch rg schema batch
        → (ps : Predicates F32 F64) (result mask : BooleanArray) → AllCompareExactly ps
        → NoTrue result ⊎ (all_might_match f32 f64 rg schema ps ≡ false)
        → fold_and k batch ps result ≡ ok mask
        → NoTrue mask
    fold_and_sound rg schema batch d nil result mask x s h =
        let same : result ≡ mask = ground arith in
        let start : NoTrue result = elim s [ inl n ↦ n | inr e ↦ absurd (ground arith) ] in
        rw (← same) start
    fold_and_sound rg schema batch d (cons p ps) result mask x s h =
        elim (Result-cases (evaluate_batch k batch p)) [
          | inr (bad, is_bad) ↦ absurd (ground arith)
          | inl (m, is_m) ↦ elim (Result-cases (map_err arrow (k.and_kernel result m))) [
            | inr (bad, is_bad) ↦ absurd (ground arith)
            | inl (next, is_next) ↦
                fold_and_sound rg schema batch d ps next mask x.1
                  (elim s [
                    | inl n ↦ inl (and_kernel-NoTrue result m next (inl n) is_next)
                    | inr e ↦ elim (Bool-cases (row_group_might_match f32 f64 rg schema p)) [
                      | inl t ↦ inr (ground arith)
                      | inr f ↦ inl (
                          and_kernel-NoTrue result m next
                            (inr (group_sound rg schema batch d p m x.0 f is_m)) is_next)
                    ]
                  ])
                  (ground arith)
          ]
        ]

    fold_or_sound :
        (rg : List (Option (Statistics F32 F64))) (schema : List Bytes)
        (batch : RecordBatch F32 F64)
        → DescribesBatch rg schema batch
        → (ps : Predicates F32 F64) (result mask : BooleanArray) → AllCompareExactly ps
        → NoTrue result
        → any_might_match f32 f64 rg schema ps ≡ false
        → fold_or k batch ps result ≡ ok mask
        → NoTrue mask
    fold_or_sound rg schema batch d nil result mask x s e h =
        let same : result ≡ mask = ground arith in rw (← same) s
    fold_or_sound rg schema batch d (cons p ps) result mask x s e h =
        elim (Result-cases (evaluate_batch k batch p)) [
          | inr (bad, is_bad) ↦ absurd (ground arith)
          | inl (m, is_m) ↦ elim (Result-cases (map_err arrow (k.or_kernel result m))) [
            | inr (bad, is_bad) ↦ absurd (ground arith)
            | inl (next, is_next) ↦
                fold_or_sound rg schema batch d ps next mask x.1
                  (or_kernel-NoTrue result m next s
                    (group_sound rg schema batch d p m x.0 (ground arith) is_m) is_next)
                  (ground arith) (ground arith)
          ]
        ]

  -- A row group that is skipped has no matching row: if `row_group_might_match` is false, and the
  -- statistics hold of the columns of the batch, then a mask that `evaluate_batch` gives on the
  -- batch is true on no row. For predicates with no float comparison outside a negation, and
  -- kernels with their documented results.
  pub row_group_might_match_sound :
      (rg : List (Option (Statistics F32 F64))) (schema : List Bytes) (batch : RecordBatch F32 F64)
      (p : Predicate F32 F64) (mask : BooleanArray)
      → DescribesBatch rg schema batch
      → ComparesExactly p
      → row_group_might_match f32 f64 rg schema p ≡ false
      → evaluate_batch k batch p ≡ ok mask
      → NoTrue mask
  row_group_might_match_sound rg schema batch p mask d = group_sound rg schema batch d p mask
