-- ===== src/Columnar/Predicate/Groups.antt =====
-- `Predicate::row_group_might_match` of crates/oxistore-columnar/src/predicate.rs: whether the
-- statistics of a row group leave room for a matching row.
use oxistore.Common.{
  ℕ, suc, Bool, true, false, not, ◌&&◌, ◌||◌, Option, none, some, List, [], ◌∷◌, ◌==◌,
  if◌then◌else◌, get_elem?,
}
use oxistore.Common.Bytes.{Bytes}
use oxistore.Columnar.Ordered.{Ordered, ints, byte_strings, eqb_bytes}
use oxistore.Columnar.Predicate.{
  CmpOp, eq, ne, lt, le, gt, ge, Scalar, bool, int32, int64, float32, float64, bytes, null,
  Predicate, Predicates, cmp, and, or, neg, everything, nothing, nil, cons, Float, ValueStatistics,
  Statistics, of_boolean, of_int32, of_int64, of_float, of_double, of_byte_array,
}

-- `iter().position(|c| c.name() == column)`
unfoldable pub position : Bytes → List Bytes → Option ℕ
position column [] = none
position column (name ∷ names) =
    let rest = position column names in
    if eqb_bytes name column then some 0 else elim rest [ none ↦ none | some i ↦ some (suc i) ]

-- `null_count == Some(0)`
abbrev no_nulls : Option ℕ → Bool
no_nulls none = false
no_nulls (some n) = n == 0

unfoldable pub apply_ord_op : {T : Type 0} → Ordered T → CmpOp → T → T → T → Option ℕ → Bool
apply_ord_op o eq min max v null_count = o.leb min v && o.leb v max
apply_ord_op o ne min max v null_count = not ((o.eqb min v && o.eqb max v) && no_nulls null_count)
apply_ord_op o lt min max v null_count = o.ltb min v
apply_ord_op o le min max v null_count = o.leb min v
apply_ord_op o gt min max v null_count = o.ltb v max
apply_ord_op o ge min max v null_count = o.leb v max

unfoldable pub apply_bool_op : CmpOp → Bool → Bool → Bool → Bool
apply_bool_op eq min max v = (not min || v) && (not v || max)
apply_bool_op ne min max v = true
apply_bool_op lt min max v = not min && v
apply_bool_op le min max v = not min || v
apply_bool_op gt min max v = max && not v
apply_bool_op ge min max v = max || not v

unfoldable pub apply_bytes_op : CmpOp → Bytes → Bytes → Bytes → Option ℕ → Bool
unfolding apply_ord_op
apply_bytes_op = apply_ord_op byte_strings

-- The operator of `apply_float_op_f32`, `apply_float_op_f64` on numbers.
unfoldable pub float_op : {F : Type 0} → Float F → CmpOp → F → F → F → Option ℕ → Bool
float_op f eq min max v null_count = f.order.leb min v && f.order.leb v max
float_op f ne min max v null_count = not ((f.near min v && f.near max v) && no_nulls null_count)
float_op f lt min max v null_count = f.order.ltb min v
float_op f le min max v null_count = f.order.leb min v
float_op f gt min max v null_count = f.order.ltb v max
float_op f ge min max v null_count = f.order.leb v max

unfoldable pub apply_float_op : {F : Type 0} → Float F → CmpOp → F → F → F → Option ℕ → Bool
apply_float_op f op min max v null_count =
    if f.is_nan v || f.is_nan min || f.is_nan max then true else float_op f op min max v null_count

-- `(s.min_opt(), s.max_opt())`: without both, the group is kept.
abbrev pub with_bounds : {T : Type 0} → ValueStatistics T → (T → T → Bool) → Bool
with_bounds s test = elim s.min [
  | none ↦ true
  | some mn ↦ (elim s.max [ none ↦ true | some mx ↦ test mn mx ])
]

module _ {F32 F64 : Type 0} (f32 : Float F32) (f64 : Float F64) where
  unfoldable pub evaluate_cmp : Statistics F32 F64 → CmpOp → Scalar F32 F64 → Bool
  evaluate_cmp (of_boolean s) op (bool v) = with_bounds s (λ mn mx. apply_bool_op op mn mx v)
  evaluate_cmp (of_int32 s) op (int32 v) =
      with_bounds s (λ mn mx. apply_ord_op ints op mn mx v s.null_count)
  evaluate_cmp (of_int64 s) op (int64 v) =
      with_bounds s (λ mn mx. apply_ord_op ints op mn mx v s.null_count)
  evaluate_cmp (of_float s) op (float32 v) =
      with_bounds s (λ mn mx. apply_float_op f32 op mn mx v s.null_count)
  evaluate_cmp (of_double s) op (float64 v) =
      with_bounds s (λ mn mx. apply_float_op f64 op mn mx v s.null_count)
  evaluate_cmp (of_byte_array s) op (bytes v) =
      with_bounds s (λ mn mx. apply_bytes_op op mn mx v s.null_count)
  evaluate_cmp _ op v = true

  abbrev is_null : Scalar F32 F64 → Bool
  is_null null = true
  is_null _ = false

  -- A row group is the statistics of its column chunks; the schema is the names of its leaf columns.
  unfoldable pub cmp_might_match :
      List (Option (Statistics F32 F64)) → List Bytes → Bytes → CmpOp → Scalar F32 F64 → Bool
  cmp_might_match rg schema column op value =
      if is_null value then true else elim (position column schema) [
        | none ↦ true
        | some col_idx ↦ (elim (get_elem? rg col_idx) [
          | none ↦ true
          | some none ↦ true
          | some (some stats) ↦ evaluate_cmp stats op value
        ])
      ]

  unfoldable mutual
    pub row_group_might_match :
        List (Option (Statistics F32 F64)) → List Bytes → Predicate F32 F64 → Bool
    row_group_might_match rg schema (cmp column op value) =
        cmp_might_match rg schema column op value
    row_group_might_match rg schema (and preds) = all_might_match rg schema preds
    row_group_might_match rg schema (or preds) = any_might_match rg schema preds
    row_group_might_match rg schema (neg p) = true
    row_group_might_match rg schema everything = true
    row_group_might_match rg schema nothing = false

    pub all_might_match :
        List (Option (Statistics F32 F64)) → List Bytes → Predicates F32 F64 → Bool
    all_might_match rg schema nil = true
    all_might_match rg schema (cons p ps) =
        row_group_might_match rg schema p && all_might_match rg schema ps

    pub any_might_match :
        List (Option (Statistics F32 F64)) → List Bytes → Predicates F32 F64 → Bool
    any_might_match rg schema nil = false
    any_might_match rg schema (cons p ps) =
        row_group_might_match rg schema p || any_might_match rg schema ps
