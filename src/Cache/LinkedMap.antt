-- ===== src/Cache/LinkedMap.antt =====
-- `hashlink::LinkedHashMap`, a map that keeps its entries in a list, as the caches use it. It is
-- a parameter of the models: its operations here, and its documented behaviour as laws over
-- `iter`, which lists the entries from the front (oldest) to the back.
pub mod Laws
use oxistore.Common.{
  ℕ, ◌≡◌, Bool, Option, none, some, List, [], ◌∷◌, ◌++◌, length, head?, tail, is_some,
}
use oxistore.Common.Assoc.{lookup, without, Distinct}

pub record LinkedHashMap (K V M : Type 0) : Type 0 where
  pub empty : M
  pub iter : M → List (K × V)
  pub len : M → ℕ
  pub get : K → M → Option V
  -- the old value, and the map with the key at the back
  pub insert : K → V → M → Option V × M
  pub remove : K → M → Option V × M
  pub pop_front : M → Option (K × V) × M
  -- the raw entry's `to_back`
  pub to_back : K → M → M

abbrev pub contains : {K V M : Type 0} → LinkedHashMap K V M → K → M → Bool
contains ops k m = is_some (ops.get k m)

module _ {K V : Type 0} (dec : Discrete K) where
  -- moves the key to the back, if it is there
  abbrev pub move_back : K → List (K × V) → List (K × V)
  move_back k l = elim (lookup dec k l) [ none ↦ l | some v ↦ without dec k l ++ (k, v) ∷ [] ]

  pub record IsLinked {M : Type 0} (ops : LinkedHashMap K V M) : Type 0 where
    pub distinct : (m : M) → Distinct dec (ops.iter m)
    pub iter-empty : ops.iter ops.empty ≡ []
    pub len-iter : (m : M) → ops.len m ≡ length (ops.iter m)
    pub get-iter : (k : K) (m : M) → ops.get k m ≡ lookup dec k (ops.iter m)
    pub insert_old : (k : K) (v : V) (m : M) → (ops.insert k v m).0 ≡ lookup dec k (ops.iter m)
    pub iter-insert :
        (k : K) (v : V) (m : M)
        → ops.iter (ops.insert k v m).1 ≡ without dec k (ops.iter m) ++ (k, v) ∷ []
    pub remove_old : (k : K) (m : M) → (ops.remove k m).0 ≡ lookup dec k (ops.iter m)
    pub iter-remove : (k : K) (m : M) → ops.iter (ops.remove k m).1 ≡ without dec k (ops.iter m)
    pub pop_front_old : (m : M) → (ops.pop_front m).0 ≡ head? (ops.iter m)
    pub iter-pop_front : (m : M) → ops.iter (ops.pop_front m).1 ≡ tail (ops.iter m)
    pub iter-to_back : (k : K) (m : M) → ops.iter (ops.to_back k m) ≡ move_back k (ops.iter m)
