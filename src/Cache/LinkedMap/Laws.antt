-- ===== src/Cache/LinkedMap/Laws.antt =====
-- Sizes and lookups of a linked hash map after an operation, from its laws.
use oxistore.Common.{
  ◌+◌, ◌-◌, ◌≤◌, ◌≡◌, ◌≢◌, refl, sym, ◌∙◌, ap, none, some, List, [], ◌∷◌, length, head?, arith,
  length-append, length-tail,
}
use oxistore.Common.Assoc.{
  lookup, without, without_absent, length-without_le, length-without_present, lookup-snoc_self,
  lookup-snoc_ne, lookup-without_self, lookup-without_ne, lookup-tail_absent,
}
use oxistore.Cache.LinkedMap.{LinkedHashMap, IsLinked}

module _ {K V M : Type 0} (dec : Discrete K) (ops : LinkedHashMap K V M)
    (linked : IsLinked dec ops) where
  pub len-empty : ops.len ops.empty ≡ 0
  len-empty = omega (arith, linked.len-iter ops.empty, ap length linked.iter-empty)

  pub len-insert_le : (k : K) (v : V) (m : M) → ops.len (ops.insert k v m).1 ≤ ops.len m + 1
  len-insert_le k v m = omega (
    arith,
    linked.len-iter m,
    linked.len-iter (ops.insert k v m).1,
    ap length (linked.iter-insert k v m),
    length-append (without dec k (ops.iter m)) ((k, v) ∷ []),
    length-without_le dec k (ops.iter m),
  )

  pub len-insert_absent :
      (k : K) (v : V) (m : M) → ops.get k m ≡ none → ops.len (ops.insert k v m).1 ≡ ops.len m + 1
  len-insert_absent k v m h = omega (
    arith,
    linked.len-iter m,
    linked.len-iter (ops.insert k v m).1,
    ap length (linked.iter-insert k v m),
    length-append (without dec k (ops.iter m)) ((k, v) ∷ []),
    ap length (without_absent dec k (ops.iter m) (sym (linked.get-iter k m) ∙ h)),
  )

  pub len-insert_present :
      (k : K) (v w : V) (m : M) → ops.get k m ≡ some w → ops.len (ops.insert k v m).1 ≡ ops.len m
  len-insert_present k v w m h = omega (
    arith,
    linked.len-iter m,
    linked.len-iter (ops.insert k v m).1,
    ap length (linked.iter-insert k v m),
    length-append (without dec k (ops.iter m)) ((k, v) ∷ []),
    length-without_present dec k (ops.iter m) w (linked.distinct m) (sym (linked.get-iter k m) ∙ h),
  )

  pub len-remove_le : (k : K) (m : M) → ops.len (ops.remove k m).1 ≤ ops.len m
  len-remove_le k m = omega (
    arith,
    linked.len-iter m,
    linked.len-iter (ops.remove k m).1,
    ap length (linked.iter-remove k m),
    length-without_le dec k (ops.iter m),
  )

  pub len-remove_present :
      (k : K) (w : V) (m : M) → ops.get k m ≡ some w → ops.len (ops.remove k m).1 + 1 ≡ ops.len m
  len-remove_present k w m h = omega (
    arith,
    linked.len-iter m,
    linked.len-iter (ops.remove k m).1,
    ap length (linked.iter-remove k m),
    length-without_present dec k (ops.iter m) w (linked.distinct m) (sym (linked.get-iter k m) ∙ h),
  )

  pub len-remove_absent :
      (k : K) (m : M) → ops.get k m ≡ none → ops.len (ops.remove k m).1 ≡ ops.len m
  len-remove_absent k m h = omega (
    arith,
    linked.len-iter m,
    linked.len-iter (ops.remove k m).1,
    ap length (linked.iter-remove k m),
    ap length (without_absent dec k (ops.iter m) (sym (linked.get-iter k m) ∙ h)),
  )

  pub remove-get : (k : K) (m : M) → (ops.remove k m).0 ≡ ops.get k m
  remove-get k m = linked.remove_old k m ∙ sym (linked.get-iter k m)

  pub insert-get : (k : K) (v : V) (m : M) → (ops.insert k v m).0 ≡ ops.get k m
  insert-get k v m = linked.insert_old k v m ∙ sym (linked.get-iter k m)

  pub len-pop_front : (m : M) → ops.len (ops.pop_front m).1 ≡ ops.len m - 1
  len-pop_front m = omega (
    arith,
    linked.len-iter m,
    linked.len-iter (ops.pop_front m).1,
    ap length (linked.iter-pop_front m),
    length-tail (ops.iter m),
  )

  head?-none : {A : Type 0} (l : List A) → head? l ≡ none → length l ≡ 0
  head?-none [] h = refl
  head?-none (x ∷ l) h = cc

  -- Nothing comes off only an empty map.
  pub pop_front-none : (m : M) → (ops.pop_front m).0 ≡ none → ops.len m ≡ 0
  pop_front-none m h =
      linked.len-iter m ∙ head?-none (ops.iter m) (sym (linked.pop_front_old m) ∙ h)

  pub get-insert_self : (k : K) (v : V) (m : M) → ops.get k (ops.insert k v m).1 ≡ some v
  get-insert_self k v m =
      linked.get-iter k _
      ∙ ap (lookup dec k) (linked.iter-insert k v m)
      ∙ lookup-snoc_self dec k v (ops.iter m)

  pub get-insert_ne :
      (k q : K) (v : V) (m : M) → k ≢ q → ops.get q (ops.insert k v m).1 ≡ ops.get q m
  get-insert_ne k q v m h =
      linked.get-iter q _
      ∙ ap (lookup dec q) (linked.iter-insert k v m)
      ∙ lookup-snoc_ne dec k q v (without dec k (ops.iter m)) h
      ∙ lookup-without_ne dec k q (ops.iter m) h
      ∙ sym (linked.get-iter q m)

  pub get-remove_self : (k : K) (m : M) → ops.get k (ops.remove k m).1 ≡ none
  get-remove_self k m =
      linked.get-iter k _
      ∙ ap (lookup dec k) (linked.iter-remove k m)
      ∙ lookup-without_self dec k (ops.iter m)

  pub get-remove_ne : (k q : K) (m : M) → k ≢ q → ops.get q (ops.remove k m).1 ≡ ops.get q m
  get-remove_ne k q m h =
      linked.get-iter q _
      ∙ ap (lookup dec q) (linked.iter-remove k m)
      ∙ lookup-without_ne dec k q (ops.iter m) h
      ∙ sym (linked.get-iter q m)

  pub get-pop_front_absent :
      (k : K) (m : M) → ops.get k m ≡ none → ops.get k (ops.pop_front m).1 ≡ none
  get-pop_front_absent k m h =
      linked.get-iter k _
      ∙ ap (lookup dec k) (linked.iter-pop_front m)
      ∙ lookup-tail_absent dec k (ops.iter m) (sym (linked.get-iter k m) ∙ h)
