-- ===== src/Columnar/Predicate/Bounds.antt =====
-- A comparison that the bounds of a column chunk rule out is true on none of its rows.
use mathlib.Core.Option
use oxistore.Common.{
  ℕ, ◌≡◌, ◌≢◌, refl, ap, inl, inr, Bool, true, false, not, Option, none, some, [], ◌∷◌, ok, map_err,
  All, map, arith, Bool-cases,
}
use oxistore.Columnar.Ordered.{Ordered, IsOrdered}
use oxistore.Columnar.Arrow.{Array, BooleanArray, Kernel, IsKernel}
use oxistore.Columnar.Predicate.Rows.{apply_cmp}
use oxistore.Columnar.Predicate.Groups.{with_bounds, apply_ord_op}
use oxistore.Columnar.Predicate.{CmpOp, eq, ne, lt, le, gt, ge, arrow, ValueStatistics}

-- No row has the value `true`.
abbrev pub NoTrue : BooleanArray → Type 0
NoTrue = All (λ b. b ≢ some true)

-- Every value that is not null lies between the minimum and the maximum, where these are known.
abbrev pub Within : {T : Type 0} → Ordered T → ValueStatistics T → Array T → Type 0
Within o s = All (λ x. elim x [
  | none ↦ Unit
  | some a ↦
      (elim s.min [ none ↦ Unit | some mn ↦ o.leb mn a ≡ true ])
      × (elim s.max [ none ↦ Unit | some mx ↦ o.leb a mx ≡ true ])
])

module _ {T : Type 0} (o : Ordered T) (ordered : IsOrdered o) where
  -- The comparison that an operator stands for.
  abbrev row_test : CmpOp → T → T → Bool
  row_test eq x v = o.eqb x v
  row_test ne x v = not (o.eqb x v)
  row_test lt x v = o.ltb x v
  row_test le x v = o.leb x v
  row_test gt x v = o.ltb v x
  row_test ge x v = o.leb v x

  apply_ord_op_sound :
      (op : CmpOp) (mn mx v x : T) (nulls : Option ℕ)
      → o.leb mn x ≡ true
      → o.leb x mx ≡ true
      → apply_ord_op o op mn mx v nulls ≡ false
      → row_test op x v ≡ false
  unfolding apply_ord_op
  apply_ord_op_sound eq mn mx v x nulls h k e = elim (Bool-cases (o.eqb x v)) [
    | inl t ↦
        let same : x ≡ v = ordered.eqb_sound x v t in
        let h' : o.leb mn v ≡ true = rw (← same) h in
        let k' : o.leb v mx ≡ true = rw (← same) k in absurd (ground arith)
    | inr f ↦ f
  ]
  apply_ord_op_sound ne mn mx v x nulls h k e =
      let a : mn ≡ v = ordered.eqb_sound mn v (ground arith) in
      let b : mx ≡ v = ordered.eqb_sound mx v (ground arith) in
      let c : o.leb v x ≡ true = rw (← a) h in
      let d : o.leb x v ≡ true = rw (← b) k in
      let same : v ≡ x = ordered.antisym v x c d in rw (same, ordered.eqb_complete x) refl
  apply_ord_op_sound lt mn mx v x nulls h k e =
      ground (arith, ordered.ltb_not mn v, ordered.ltb_not x v, ordered.trans v mn x)
  apply_ord_op_sound le mn mx v x nulls h k e = ground (arith, ordered.trans mn x v)
  apply_ord_op_sound gt mn mx v x nulls h k e =
      ground (arith, ordered.ltb_not v mx, ordered.ltb_not v x, ordered.trans x mx v)
  apply_ord_op_sound ge mn mx v x nulls h k e = ground (arith, ordered.trans v x mx)

  apply_cmp-result :
      {E : Type 0} (k : Kernel E T)
      → IsKernel o k
      → (col : Array T) (op : CmpOp) (v : T)
      → apply_cmp k col op v ≡ ok (map (Option.map (λ x. row_test op x v)) col)
  unfolding apply_cmp
  apply_cmp-result k laws col eq v = ap (map_err arrow) (laws.eq_result col v)
  apply_cmp-result k laws col ne v = ap (map_err arrow) (laws.neq_result col v)
  apply_cmp-result k laws col lt v = ap (map_err arrow) (laws.lt_result col v)
  apply_cmp-result k laws col le v = ap (map_err arrow) (laws.lt_eq_result col v)
  apply_cmp-result k laws col gt v = ap (map_err arrow) (laws.gt_result col v)
  apply_cmp-result k laws col ge v = ap (map_err arrow) (laws.gt_eq_result col v)

  NoTrue-map :
      (op : CmpOp) (mn mx v : T) (nulls : Option ℕ) (col : Array T)
      → Within o (record { min = some mn; max = some mx; null_count = nulls }) col
      → apply_ord_op o op mn mx v nulls ≡ false
      → NoTrue (map (Option.map (λ x. row_test op x v)) col)
  NoTrue-map op mn mx v nulls [] w e = tt
  NoTrue-map op mn mx v nulls (none ∷ col) w e =
      (ground arith, NoTrue-map op mn mx v nulls col w.1 e)
  NoTrue-map op mn mx v nulls (some x ∷ col) w e =
      (ground (arith, apply_ord_op_sound op mn mx v x nulls), NoTrue-map op mn mx v nulls col w.1 e)

  -- A comparison that the statistics rule out is true on no row.
  mask_of_bounds :
      (lo hi : Option T) (nulls : Option ℕ) (col : Array T) (op : CmpOp) (v : T)
      → Within o (record { min = lo; max = hi; null_count = nulls }) col
      → with_bounds
          (record { min = lo; max = hi; null_count = nulls })
          (λ mn mx. apply_ord_op o op mn mx v nulls)
        ≡ false
      → NoTrue (map (Option.map (λ x. row_test op x v)) col)
  mask_of_bounds none hi nulls col op v w e = absurd (ground arith)
  mask_of_bounds (some mn) none nulls col op v w e = absurd (ground arith)
  mask_of_bounds (some mn) (some mx) nulls col op v w e = NoTrue-map op mn mx v nulls col w e

  pub column_sound :
      {E : Type 0} (k : Kernel E T)
      → IsKernel o k
      → (s : ValueStatistics T) (col : Array T) (op : CmpOp) (v : T) (mask : BooleanArray)
      → Within o s col
      → with_bounds s (λ mn mx. apply_ord_op o op mn mx v s.null_count) ≡ false
      → apply_cmp k col op v ≡ ok mask
      → NoTrue mask
  column_sound k laws s col op v mask w e h =
      let same : map (Option.map (λ x. row_test op x v)) col ≡ mask =
        ground (arith, apply_cmp-result k laws col op v) in
      rw (← same) (mask_of_bounds s.min s.max s.null_count col op v w e)
