-- ===== src/Tests/PredicateExamples.antt =====
-- Kernels over lists, and predicates on a batch of three rows.
use mathlib.Core.Option
use oxistore.Common.{
  ℕ, zero, suc, ◌≡◌, refl, ◌&&◌, ◌||◌, not, true, false, Option, none, some, List, [], ◌∷◌, map,
  length, ok, err, if◌then◌else◌, ◌==◌, arith, get_elem?, ℕ_discrete,
}
use oxistore.Common.Assoc.{lookup}
use oxistore.Common.Bytes.{Bytes, bytes_dec}
use oxistore.Columnar.Ordered.{
  ℤ, pos, negsuc, Ordered, ints, byte_strings, leb_int, ltb_int, eqb_int, eqb_bytes,
}
use oxistore.Columnar.Arrow.{
  Array, BooleanArray, Kernel, IsKernel, Compute, IsCompute, lift2, zip_with,
}
use oxistore.Columnar.Predicate.{
  eq, gt, int32, Predicate, cmp, and, nil, cons, Column, int32_array, RecordBatch, Float,
  Statistics, ValueStatistics, of_int32,
}
use oxistore.Columnar.Predicate.Rows.{apply_cmp, evaluate_cmp_column, evaluate_batch}
use oxistore.Columnar.Predicate.Groups.{
  position, apply_ord_op, evaluate_cmp, cmp_might_match, row_group_might_match,
}
use oxistore.Columnar.Predicate.Bounds.{NoTrue, Within}
use oxistore.Columnar.Predicate.Pruning.{
  ComparesExactly, DescribesBatch, row_group_might_match_sound,
}
use oxistore.Columnar.Predicate.Totality.{IsWellTyped, evaluate_batch-total}

-- A stand-in for the floats, with one value.
abbrev One : Type 0
One = Unit {0}

abbrev one : Float One
one = record {
  order = record { eqb = λ a b. true; ltb = λ a b. false; leb = λ a b. true };
  is_nan = λ a. false;
  near = λ a b. true;
}

abbrev list_kernel : {T : Type 0} → Ordered T → Kernel One T
list_kernel o = record {
  eq = λ c v. ok (map (Option.map (λ x. o.eqb x v)) c);
  neq = λ c v. ok (map (Option.map (λ x. not (o.eqb x v))) c);
  lt = λ c v. ok (map (Option.map (λ x. o.ltb x v)) c);
  lt_eq = λ c v. ok (map (Option.map (λ x. o.leb x v)) c);
  gt = λ c v. ok (map (Option.map (λ x. o.ltb v x)) c);
  gt_eq = λ c v. ok (map (Option.map (λ x. o.leb v x)) c);
}

list_kernel-IsKernel : {T : Type 0} (o : Ordered T) → IsKernel o (list_kernel o)
list_kernel-IsKernel o = record {
  eq_result = λ c v. refl;
  neq_result = λ c v. refl;
  lt_result = λ c v. refl;
  lt_eq_result = λ c v. refl;
  gt_result = λ c v. refl;
  gt_eq_result = λ c v. refl;
}

abbrev lists : Compute One One One
lists = record {
  int32 = list_kernel ints;
  int64 = list_kernel ints;
  float32 = list_kernel one.order;
  float64 = list_kernel one.order;
  utf8 = list_kernel byte_strings;
  and_kernel = λ a b. if length a == length b then ok (zip_with (lift2 (◌&&◌)) a b) else err tt;
  or_kernel = λ a b. if length a == length b then ok (zip_with (lift2 (◌||◌)) a b) else err tt;
  not_kernel = λ a. ok (map (Option.map not) a);
}

lists-IsCompute : IsCompute lists
lists-IsCompute = record {
  int32_kernel = list_kernel-IsKernel ints;
  int64_kernel = list_kernel-IsKernel ints;
  utf8_kernel = list_kernel-IsKernel byte_strings;
  mismatch = tt;
  and_result = λ a b. refl;
  or_result = λ a b. refl;
  not_result = λ a. refl;
}

-- One column, `x`, with the rows -1, null, 4.
abbrev x : Bytes
x = 120 ∷ []

abbrev rows : Array ℤ
rows = some (negsuc 0) ∷ none ∷ some (pos 4) ∷ []

abbrev batch : RecordBatch One One
batch = record { fields = (x, int32_array rows) ∷ []; num_rows = 3 }

abbrev bounds : ValueStatistics ℤ
bounds = record { min = some (negsuc 0); max = some (pos 4); null_count = some 1 }

abbrev group : List (Option (Statistics One One))
group = some (of_int32 bounds) ∷ []

-- x = 4 AND x > 4
abbrev never : Predicate One One
never = and (cons (cmp x eq (int32 (pos 4))) (cons (cmp x gt (int32 (pos 4))) nil))

abbrev never_mask : BooleanArray
never_mask = some false ∷ none ∷ some false ∷ []

only_statistics :
    (i : ℕ) (stats : Statistics One One)
    → get_elem? group i ≡ some (some stats)
    → of_int32 bounds ≡ stats
only_statistics zero stats e = ground arith
only_statistics (suc i) stats e = ground arith

only_column :
    (column : Bytes) (col : Column One One)
    → lookup bytes_dec column batch.fields ≡ some col
    → int32_array rows ≡ col
unfolding lookup
only_column column col e = ground arith

rows_between : Within ints bounds rows
unfolding leb_int
rows_between = ((refl, refl), (tt, ((refl, refl), tt)))

describes : DescribesBatch group (x ∷ []) batch
describes column i stats col is_i is_stats is_col =
    rw (← only_statistics i stats is_stats, ← only_column column col is_col) rows_between

is_skipped : row_group_might_match one one group (x ∷ []) never ≡ false
unfolding row_group_might_match cmp_might_match evaluate_cmp apply_ord_op position eqb_bytes leb_int
    ltb_int
is_skipped = refl

is_evaluated : evaluate_batch lists batch never ≡ ok never_mask
unfolding evaluate_batch evaluate_cmp_column apply_cmp lookup bytes_dec ℕ_discrete eqb_int ltb_int
is_evaluated = refl

is_exact : ComparesExactly never
unfolding ComparesExactly
is_exact = (tt, (tt, tt))

row_group_might_match-sound_example : NoTrue never_mask
row_group_might_match-sound_example =
    row_group_might_match_sound one one lists lists-IsCompute group (x ∷ []) batch never never_mask
      describes is_exact is_skipped is_evaluated

is_typed : IsWellTyped batch never
unfolding IsWellTyped lookup bytes_dec ℕ_discrete
is_typed = ((int32_array rows, refl, refl), ((int32_array rows, refl, refl), tt))

evaluate_batch-total_example :
    (mask : BooleanArray) × (evaluate_batch lists batch never ≡ ok mask)
    × (length mask ≡ batch.num_rows)
evaluate_batch-total_example = evaluate_batch-total lists lists-IsCompute batch never is_typed
