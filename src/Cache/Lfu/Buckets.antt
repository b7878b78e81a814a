-- ===== src/Cache/Lfu/Buckets.antt =====
-- Which keys the buckets of an `LfuCache` hold.
use oxistore.Common.{
  ℕ, ◌≡◌, ◌≢◌, refl, sym, ◌∙◌, ap, Bool, true, false, Option, none, some, List, [], ◌∷◌, length,
  arith, is_some, ℕ_discrete, Option-cases, inl, inr, if_pos, if_neg,
}
use oxistore.Common.Assoc.{
  lookup, without, lookup-without_self, lookup-without_ne, lookup-snoc_self, lookup-snoc_ne,
}
use oxistore.Cache.LinkedMap.{LinkedHashMap, IsLinked}
use oxistore.Cache.Lfu.{set, store_bucket, take_out, put_in}

abbrev pub held : {K M : Type 0} → LinkedHashMap K (Unit {0}) M → K → Option M → Bool
held ops k none = false
held ops k (some b) = is_some (ops.get k b)

-- Whether the bucket of a frequency holds a key.
unfoldable pub member : {K M : Type 0} → LinkedHashMap K (Unit {0}) M → ℕ → K → List (ℕ × M) → Bool
member ops f k buckets = held ops k (lookup ℕ_discrete f buckets)

lookup_nothing :
    {K V : Type 0} (dec : Discrete K) (l : List (K × V)) (q : K)
    → length l ≡ 0
    → lookup dec q l ≡ none
unfolding lookup
lookup_nothing dec [] q e = refl
lookup_nothing dec (x ∷ l) q e = absurd (omega arith)

module _ {K M : Type 0} (dec : Discrete K) (ops : LinkedHashMap K (Unit {0}) M)
    (linked : IsLinked dec ops) where
  pub member-set_self :
      (f : ℕ) (q : K) (b : M) (bs : List (ℕ × M))
      → member ops f q (set ℕ_discrete f b bs) ≡ is_some (ops.get q b)
  unfolding member lookup
  member-set_self f q b bs = ap (held ops q) (if_pos (ℕ_discrete f f) refl _ _)

  pub member-set_ne :
      (f g : ℕ) (q : K) (b : M) (bs : List (ℕ × M))
      → f ≢ g
      → member ops g q (set ℕ_discrete f b bs) ≡ member ops g q bs
  unfolding member lookup
  member-set_ne f g q b bs ne =
      ap (held ops q) (if_neg (ℕ_discrete f g) ne _ _ ∙ lookup-without_ne ℕ_discrete f g bs ne)

  member-without_self :
      (f : ℕ) (q : K) (bs : List (ℕ × M)) → member ops f q (without ℕ_discrete f bs) ≡ false
  unfolding member
  member-without_self f q bs = ap (held ops q) (lookup-without_self ℕ_discrete f bs)

  member-without_ne :
      (f g : ℕ) (q : K) (bs : List (ℕ × M))
      → f ≢ g
      → member ops g q (without ℕ_discrete f bs) ≡ member ops g q bs
  unfolding member
  member-without_ne f g q bs ne = ap (held ops q) (lookup-without_ne ℕ_discrete f g bs ne)

  pub get-empty : (q : K) (b : M) → ops.len b ≡ 0 → is_some (ops.get q b) ≡ false
  unfolding lookup
  get-empty q b e =
      let l = ops.iter b in
      let nothing : length (ops.iter b) ≡ 0 = sym (linked.len-iter b) ∙ e in
      ap is_some (linked.get-iter q b ∙ lookup_nothing dec (ops.iter b) q nothing)

  pub member-store_self :
      (f : ℕ) (q : K) (b : M) (bs : List (ℕ × M))
      → member ops f q (store_bucket ops f b bs) ≡ is_some (ops.get q b)
  unfolding store_bucket
  member-store_self f q b bs =
      ground (arith, member-set_self f q b bs, member-without_self f q bs, get-empty q b)

  pub member-store_ne :
      (f g : ℕ) (q : K) (b : M) (bs : List (ℕ × M))
      → f ≢ g
      → member ops g q (store_bucket ops f b bs) ≡ member ops g q bs
  unfolding store_bucket
  member-store_ne f g q b bs ne =
      ground (arith, member-set_ne f g q b bs ne, member-without_ne f g q bs ne)

  get-remove_self : (k : K) (b : M) → is_some (ops.get k (ops.remove k b).1) ≡ false
  get-remove_self k b = ap is_some (
      linked.get-iter k (ops.remove k b).1
      ∙ ap (lookup dec k) (linked.iter-remove k b)
      ∙ lookup-without_self dec k (ops.iter b))

  pub get-remove_ne : (k q : K) (b : M) → k ≢ q → ops.get q (ops.remove k b).1 ≡ ops.get q b
  get-remove_ne k q b ne =
      linked.get-iter q (ops.remove k b).1
      ∙ ap (lookup dec q) (linked.iter-remove k b)
      ∙ lookup-without_ne dec k q (ops.iter b) ne
      ∙ sym (linked.get-iter q b)

  get-insert_self : (k : K) (b : M) → is_some (ops.get k (ops.insert k tt b).1) ≡ true
  get-insert_self k b = ap is_some (
      linked.get-iter k (ops.insert k tt b).1
      ∙ ap (lookup dec k) (linked.iter-insert k tt b)
      ∙ lookup-snoc_self dec k tt (ops.iter b))

  get-insert_ne : (k q : K) (b : M) → k ≢ q → ops.get q (ops.insert k tt b).1 ≡ ops.get q b
  get-insert_ne k q b ne =
      linked.get-iter q (ops.insert k tt b).1
      ∙ ap (lookup dec q) (linked.iter-insert k tt b)
      ∙ lookup-snoc_ne dec k q tt (without dec k (ops.iter b)) ne
      ∙ lookup-without_ne dec k q (ops.iter b) ne
      ∙ sym (linked.get-iter q b)

  take_out_held :
      (k : K) (f : ℕ) (bs : List (ℕ × M)) (b : M)
      → lookup ℕ_discrete f bs ≡ some b
      → take_out ops k f bs ≡ store_bucket ops f (ops.remove k b).1 bs
  unfolding take_out
  take_out_held k f bs b e =
      ap (λ o. elim o [ none ↦ bs | some bucket ↦ store_bucket ops f (ops.remove k bucket).1 bs ]) e

  take_out_missing :
      (k : K) (f : ℕ) (bs : List (ℕ × M)) → lookup ℕ_discrete f bs ≡ none → take_out ops k f bs ≡ bs
  unfolding take_out
  take_out_missing k f bs e =
      ap (λ o. elim o [ none ↦ bs | some bucket ↦ store_bucket ops f (ops.remove k bucket).1 bs ]) e

  -- After a key is taken out of the bucket of a frequency: the key itself, another key of the bucket,
  -- and the other buckets.
  pub member-take_out_self :
      (k : K) (f : ℕ) (bs : List (ℕ × M)) → member ops f k (take_out ops k f bs) ≡ false
  unfolding member
  member-take_out_self k f bs = elim (Option-cases (lookup ℕ_discrete f bs)) [
    | inl e ↦ ap (member ops f k) (take_out_missing k f bs e) ∙ ap (held ops k) e
    | inr (b, e) ↦
        ap (member ops f k) (take_out_held k f bs b e)
        ∙ member-store_self f k (ops.remove k b).1 bs
        ∙ get-remove_self k b
  ]

  pub member-take_out_key :
      (k q : K) (f : ℕ) (bs : List (ℕ × M))
      → k ≢ q
      → member ops f q (take_out ops k f bs) ≡ member ops f q bs
  unfolding member
  member-take_out_key k q f bs ne = elim (Option-cases (lookup ℕ_discrete f bs)) [
    | inl e ↦ ap (member ops f q) (take_out_missing k f bs e)
    | inr (b, e) ↦
        ap (member ops f q) (take_out_held k f bs b e)
        ∙ member-store_self f q (ops.remove k b).1 bs
        ∙ ap is_some (get-remove_ne k q b ne)
        ∙ sym (ap (held ops q) e)
  ]

  pub member-take_out_ne :
      (k q : K) (f g : ℕ) (bs : List (ℕ × M))
      → f ≢ g
      → member ops g q (take_out ops k f bs) ≡ member ops g q bs
  member-take_out_ne k q f g bs ne = elim (Option-cases (lookup ℕ_discrete f bs)) [
    | inl e ↦ ap (member ops g q) (take_out_missing k f bs e)
    | inr (b, e) ↦
        ap (member ops g q) (take_out_held k f bs b e)
        ∙ member-store_ne f g q (ops.remove k b).1 bs ne
  ]

  -- The bucket that a key is put into: of the frequency, or an empty one.
  put_in_bucket :
      (k : K) (f : ℕ) (bs : List (ℕ × M))
      → (b : M) × (put_in ops k f bs ≡ set ℕ_discrete f (ops.insert k tt b).1 bs)
        × ((q : K) → is_some (ops.get q b) ≡ member ops f q bs)
  unfolding put_in member lookup
  put_in_bucket k f bs = elim (Option-cases (lookup ℕ_discrete f bs)) [
    | inl e ↦ (
      ops.empty,
      ap
          (λ o. elim o [
            | none ↦ set ℕ_discrete f (ops.insert k tt ops.empty).1 bs
            | some bucket ↦ set ℕ_discrete f (ops.insert k tt bucket).1 bs
          ])
          e,
      λ q.
          ap is_some (linked.get-iter q ops.empty ∙ ap (lookup dec q) linked.iter-empty)
          ∙ sym (ap (held ops q) e),
    )
    | inr (b, e) ↦ (
      b,
      ap
          (λ o. elim o [
            | none ↦ set ℕ_discrete f (ops.insert k tt ops.empty).1 bs
            | some bucket ↦ set ℕ_discrete f (ops.insert k tt bucket).1 bs
          ])
          e,
      λ q. sym (ap (held ops q) e),
    )
  ]

  pub member-put_in_self :
      (k : K) (f : ℕ) (bs : List (ℕ × M)) → member ops f k (put_in ops k f bs) ≡ true
  member-put_in_self k f bs =
      let (b, e, old) = put_in_bucket k f bs in
      ap (member ops f k) e ∙ member-set_self f k (ops.insert k tt b).1 bs ∙ get-insert_self k b

  pub member-put_in_key :
      (k q : K) (f : ℕ) (bs : List (ℕ × M))
      → k ≢ q
      → member ops f q (put_in ops k f bs) ≡ member ops f q bs
  member-put_in_key k q f bs ne =
      let (b, e, old) = put_in_bucket k f bs in
      ap (member ops f q) e
      ∙ member-set_self f q (ops.insert k tt b).1 bs
      ∙ ap is_some (get-insert_ne k q b ne)
      ∙ old q

  pub member-put_in_ne :
      (k q : K) (f g : ℕ) (bs : List (ℕ × M))
      → f ≢ g
      → member ops g q (put_in ops k f bs) ≡ member ops g q bs
  member-put_in_ne k q f g bs ne =
      let (b, e, old) = put_in_bucket k f bs in
      ap (member ops g q) e ∙ member-set_ne f g q (ops.insert k tt b).1 bs ne
