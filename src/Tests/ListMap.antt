-- ===== src/Tests/ListMap.antt =====
-- A linked hash map as the list of its entries: the laws of `IsLinked` can be met.
use oxistore.Common.{◌≡◌, refl, Option, none, some, List, [], ◌∷◌, ◌++◌, length, head?, tail}
use oxistore.Common.Assoc.{
  lookup, without, Distinct, Distinct-without, Distinct-snoc, lookup-without_self,
}
use oxistore.Cache.LinkedMap.{LinkedHashMap, IsLinked}

abbrev pub ListMap : {K : Type 0} → Discrete K → Type 0 → Type 0
ListMap {K} dec V = (l : List (K × V)) × Distinct dec l

module _ {K V : Type 0} (dec : Discrete K) where
  pub Distinct-tail : (l : List (K × V)) → Distinct dec l → Distinct dec (tail l)
  Distinct-tail [] d = tt
  Distinct-tail (kv ∷ l) d = d.1

  pub Distinct-put :
      (k : K) (v : V) (l : List (K × V))
      → Distinct dec l
      → Distinct dec (without dec k l ++ (k, v) ∷ [])
  Distinct-put k v l d =
      Distinct-snoc dec k v (without dec k l) (Distinct-without dec k l d)
        (lookup-without_self dec k l)

  abbrev moved : K → Option V → List (K × V) → List (K × V)
  moved k none l = l
  moved k (some v) l = without dec k l ++ (k, v) ∷ []

  pub Distinct-moved :
      (k : K) (o : Option V) (l : List (K × V)) → Distinct dec l → Distinct dec (moved k o l)
  Distinct-moved k none l d = d
  Distinct-moved k (some v) l d = Distinct-put k v l d

module _ {K V : Type 0} (dec : Discrete K) where
  abbrev pub list_map : LinkedHashMap K V (ListMap dec V)
  list_map = record {
    empty = ([], tt);
    iter = λ m. m.0;
    len = λ m. length m.0;
    get = λ k m. lookup dec k m.0;
    insert = λ k v m.
        (lookup dec k m.0, (without dec k m.0 ++ (k, v) ∷ [], Distinct-put dec k v m.0 m.1));
    remove = λ k m. (lookup dec k m.0, (without dec k m.0, Distinct-without dec k m.0 m.1));
    pop_front = λ m. (head? m.0, (tail m.0, Distinct-tail dec m.0 m.1));
    to_back = λ k m.
        (moved dec k (lookup dec k m.0) m.0, Distinct-moved dec k (lookup dec k m.0) m.0 m.1);
  }

  moved-eq :
      (k : K) (o : Option V) (l : List (K × V))
      → moved dec k o l ≡ (elim o [ none ↦ l | some v ↦ without dec k l ++ (k, v) ∷ [] ])
  moved-eq k none l = refl
  moved-eq k (some v) l = refl

  pub list_map-IsLinked : IsLinked dec list_map
  list_map-IsLinked = record {
    distinct = λ m. m.1;
    iter-empty = refl;
    len-iter = λ m. refl;
    get-iter = λ k m. refl;
    insert_old = λ k v m. refl;
    iter-insert = λ k v m. refl;
    remove_old = λ k m. refl;
    iter-remove = λ k m. refl;
    pop_front_old = λ m. refl;
    iter-pop_front = λ m. refl;
    iter-to_back = λ k m. moved-eq k (lookup dec k m.0) m.0;
  }
