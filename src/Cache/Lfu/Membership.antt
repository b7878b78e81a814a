-- ===== src/Cache/Lfu/Membership.antt =====
-- Buckets of an `LfuCache` that differ in one key.
use oxistore.Common.{
  refl, sym, ap, if_pos, if_neg, is_some, none, some, [], ◌∷◌, head?, tail, Option-cases, inl, inr,
  ℕ, ◌≡◌, ◌≢◌, subst, ◌∙◌, true, false, List, ◌==◌, arith, ℕ_discrete,
}
use oxistore.Cache.LinkedMap.{LinkedHashMap, IsLinked}
use oxistore.Common.Assoc.{lookup, Distinct}
use oxistore.Cache.Lfu.{take_out, put_in, empties}
use oxistore.Cache.Lfu.Buckets.{
  held, get-empty, get-remove_ne, member, member-take_out_self, member-take_out_key,
  member-take_out_ne, member-put_in_self, member-put_in_key, member-put_in_ne,
}

-- The other keys stand as they did.
abbrev pub Others :
    {K M : Type 0} → LinkedHashMap K (Unit {0}) M → K → List (ℕ × M) → List (ℕ × M) → Type 0
Others {K} ops k bs bs' = (q : K) (f : ℕ) → k ≢ q → member ops f q bs' ≡ member ops f q bs

head_same : {A : Type 0} (x y : A) → some x ≡ some y → x ≡ y
head_same x y e = ground arith

headed :
    {K V : Type 0} (dec : Discrete K) (l : List (K × V)) (k : K) (v : V)
    → Distinct dec l
    → head? l ≡ some (k, v)
    → (lookup dec k l ≡ some v)
      × (lookup dec k (tail l) ≡ none)
      × ((q : K) → k ≢ q → lookup dec q (tail l) ≡ lookup dec q l)
unfolding lookup
headed dec [] k v d e = absurd (ground arith)
headed dec ((j, u) ∷ l) k v d e =
    let j_is : j ≡ k = ap (λ p. p.0) (head_same (j, u) (k, v) e) in
    let u_is : u ≡ v = ap (λ p. p.1) (head_same (j, u) (k, v) e) in
    (
      if_pos (dec j k) j_is _ _ ∙ ap some u_is,
      subst (λ x. lookup dec x l ≡ none) j_is d.0,
      λ q ne. sym (if_neg (dec j q) (λ same. ne (sym j_is ∙ same)) _ _),
    )

headless : {A : Type 0} (l : List A) → head? l ≡ none → tail l ≡ l
headless [] e = refl
headless (x ∷ l) e = absurd (ground arith)

module _ {K M : Type 0} (dec : Discrete K) (ops : LinkedHashMap K (Unit {0}) M)
    (linked : IsLinked dec ops) where
  pub take_out-Others : (k : K) (g : ℕ) (bs : List (ℕ × M)) → Others ops k bs (take_out ops k g bs)
  take_out-Others k g bs q f ne = elim (ℕ_discrete g f) [
    | yes p ↦
        subst (λ x. member ops x q (take_out ops k g bs) ≡ member ops x q bs) p
          (member-take_out_key dec ops linked k q g bs ne)
    | no other ↦ member-take_out_ne dec ops linked k q g f bs other
  ]

  pub put_in-Others : (k : K) (g : ℕ) (bs : List (ℕ × M)) → Others ops k bs (put_in ops k g bs)
  put_in-Others k g bs q f ne = elim (ℕ_discrete g f) [
    | yes p ↦
        subst (λ x. member ops x q (put_in ops k g bs) ≡ member ops x q bs) p
          (member-put_in_key dec ops linked k q g bs ne)
    | no other ↦ member-put_in_ne dec ops linked k q g f bs other
  ]

  -- The key taken out of its only bucket is in none.
  pub taken_out :
      (k : K) (g : ℕ) (bs : List (ℕ × M))
      → ((f : ℕ) → g ≢ f → member ops f k bs ≡ false)
      → (f : ℕ) → member ops f k (take_out ops k g bs) ≡ false
  taken_out k g bs only f = elim (ℕ_discrete g f) [
    | yes p ↦
        subst (λ x. member ops x k (take_out ops k g bs) ≡ false) p
          (member-take_out_self dec ops linked k g bs)
    | no other ↦ member-take_out_ne dec ops linked k k g f bs other ∙ only f other
  ]

  -- The key put into one bucket, if it was in none.
  pub put_in_only :
      (k : K) (g : ℕ) (bs : List (ℕ × M))
      → ((f : ℕ) → member ops f k bs ≡ false)
      → (f : ℕ) → member ops f k (put_in ops k g bs) ≡ (g == f)
  put_in_only k g bs nowhere f = elim (ℕ_discrete g f) [
    | yes p ↦
        subst (λ x. member ops x k (put_in ops k g bs) ≡ (g == x)) p
          (member-put_in_self dec ops linked k g bs ∙ ground arith)
    | no other ↦ member-put_in_ne dec ops linked k k g f bs other ∙ nowhere f ∙ ground arith
  ]

  -- A bucket that a removal empties held no other key.
  pub emptied :
      (k q : K) (f : ℕ) (bs : List (ℕ × M))
      → empties ops k f bs ≡ true
      → k ≢ q
      → member ops f q bs ≡ false
  unfolding empties member
  emptied k q f bs e ne = elim (Option-cases (lookup ℕ_discrete f bs)) [
    | inl gone ↦ ap (held ops q) gone
    | inr (b, there) ↦
        let none_left : (ops.len (ops.remove k b).1 == 0) ≡ true =
          sym (
            ap (λ o. elim o [ none ↦ false | some bucket ↦ ops.len (ops.remove k bucket).1 == 0 ])
              there)
          ∙ e in
        ap (held ops q) there
        ∙ sym (ap is_some (get-remove_ne dec ops linked k q b ne))
        ∙ get-empty dec ops linked q (ops.remove k b).1 (ground (arith, none_left))
  ]

  -- The front of a bucket taken off.
  pub popped :
      (b b' : M) (k : K) (u : Unit {0})
      → ops.pop_front b ≡ (some (k, u), b')
      → (is_some (ops.get k b) ≡ true)
        × (is_some (ops.get k b') ≡ false)
        × ((q : K) → k ≢ q → ops.get q b' ≡ ops.get q b)
  unfolding lookup
  popped b b' k u e =
      let front : head? (ops.iter b) ≡ some (k, u) =
        sym (linked.pop_front_old b) ∙ ap (λ r. r.0) e in
      let rest : ops.iter b' ≡ tail (ops.iter b) =
        ap (λ r. ops.iter r.1) (sym e) ∙ linked.iter-pop_front b in
      let (here, gone, others) = headed dec (ops.iter b) k u (linked.distinct b) front in
      (
        ap is_some (linked.get-iter k b ∙ here),
        ap is_some (linked.get-iter k b' ∙ ap (lookup dec k) rest ∙ gone),
        λ q ne.
            linked.get-iter q b' ∙ ap (lookup dec q) rest ∙ others q ne ∙ sym (linked.get-iter q b),
      )

  pub unpopped : (b b' : M) (q : K) → ops.pop_front b ≡ (none, b') → ops.get q b' ≡ ops.get q b
  unpopped b b' q e =
      let front : head? (ops.iter b) ≡ none = sym (linked.pop_front_old b) ∙ ap (λ r. r.0) e in
      let rest : ops.iter b' ≡ tail (ops.iter b) =
        ap (λ r. ops.iter r.1) (sym e) ∙ linked.iter-pop_front b in
      linked.get-iter q b'
      ∙ ap (lookup dec q) (rest ∙ headless (ops.iter b) front)
      ∙ sym (linked.get-iter q b)
