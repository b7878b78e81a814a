-- ===== src/Cache/WriteAdapter/Shows.antt =====
-- What a cache shows after its calls, against the values that it stands before.
use oxistore.Common.{ℕ, ◌≤◌, ◌≡◌, sym, subst, ◌∙◌, ap, Option, some, arith, if_pos, if_neg}
use oxistore.Common.Bytes.{Bytes, bytes_dec}
use oxistore.Cache.Trait.{Cache}
use oxistore.Cache.Contract.{IsCache}
use oxistore.Core.Calls.{Values, update}

-- From time `t` on the cache shows no value that the function does not have.
abbrev pub Shows : {C : Type 0} → Cache Bytes Bytes C → ℕ → C → Values → Type 0
Shows policy t c f =
    (later : ℕ) (q u : Bytes) → t ≤ later → policy.peek later q c ≡ some u → f q ≡ some u

pub update_same :
    (k v : Bytes) (f : Values) (q : Bytes) → f k ≡ some v → update k (some v) f q ≡ f q
update_same k v f q e = elim (bytes_dec k q) [
  | yes same ↦ if_pos (bytes_dec k q) same _ _ ∙ sym e ∙ ap f same
  | no ne ↦ if_neg (bytes_dec k q) ne _ _
]

module _ {C : Type 0} (policy : Cache Bytes Bytes C) (caches : IsCache policy) where
  pub after_put :
      (t now : ℕ) (k v : Bytes) (c : C) (f : Values)
      → t ≤ now
      → Shows policy t c f
      → Shows policy now (policy.put now k v c).1 (update k (some v) f)
  after_put t now k v c f h cached later q u h' e = elim (bytes_dec k q) [
    | yes same ↦
        let e' : policy.peek later k (policy.put now k v c).1 ≡ some u =
          subst (λ x. policy.peek later x (policy.put now k v c).1 ≡ some u) (sym same) e in
        if_pos (bytes_dec k q) same _ _ ∙ sym (ap some (caches.peek-put_self now later k v u c e'))
    | no ne ↦
        if_neg (bytes_dec k q) ne _ _
        ∙ cached later q u (omega arith) (caches.peek-put_ne now later k q v u c ne e)
  ]

  pub after_get :
      (t now : ℕ) (k : Bytes) (c : C) (f : Values)
      → t ≤ now
      → Shows policy t c f
      → Shows policy now (policy.get now k c).1 f
  after_get t now k c f h cached later q u h' e =
      cached later q u (omega arith) (caches.peek-get now later k q u c h' e)

  pub after_remove :
      (t now : ℕ) (k : Bytes) (o : Option Bytes) (c : C) (f : Values)
      → t ≤ now
      → Shows policy t c f
      → Shows policy now (policy.remove k c).1 (update k o f)
  after_remove t now k o c f h cached later q u h' e = elim (bytes_dec k q) [
    | yes same ↦
        let e' : policy.peek later k (policy.remove k c).1 ≡ some u =
          subst (λ x. policy.peek later x (policy.remove k c).1 ≡ some u) (sym same) e in
        absurd (ground (arith, caches.peek-remove_self later k c))
    | no ne ↦
        if_neg (bytes_dec k q) ne _ _
        ∙ cached later q u (omega arith) (caches.peek-remove_ne later k q u c e)
  ]
