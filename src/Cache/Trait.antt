-- ===== src/Cache/Trait.antt =====
-- The `Cache` trait of crates/oxistore-cache/src/lib.rs, with its provided methods. A method on
-- `&mut self` returns the new state; what reads the clock takes the current time.
use oxistore.Common.{ℕ, Bool, Option, List, [], ◌∷◌, if◌then◌else◌}

pub record Cache (K V C : Type 0) : Type 0 where
  pub get : ℕ → K → C → Option V × C
  pub put : ℕ → K → V → C → Option V × C
  pub put_with_ttl : ℕ → K → V → ℕ → C → Option V × C
  pub len : C → ℕ
  pub cap : C → ℕ
  pub remove : K → C → Option V × C
  pub clear : C → C
  pub peek : ℕ → K → C → Option V
  pub contains_key : ℕ → K → C → Bool
  pub resize : ℕ → C → C
  pub values : ℕ → C → List V

-- `values` of an implementation that does not override it.
unfoldable pub default_values : {V C : Type 0} → ℕ → C → List V
default_values now c = []

module _ {K V C : Type 0} (cache : Cache K V C) where
  -- `None` is the panic of `expect`.
  unfoldable pub get_or_insert : ℕ → K → V → C → Option V × C
  get_or_insert now key default c =
      let c' = if cache.contains_key now key c then c else (cache.put now key default c).1 in
      (cache.peek now key c', c')

  unfoldable pub warm : ℕ → List (K × V) → C → C
  warm now [] c = c
  warm now ((k, v) ∷ rest) c = warm now rest (cache.put now k v c).1
