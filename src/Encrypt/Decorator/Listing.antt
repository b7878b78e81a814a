-- ===== src/Encrypt/Decorator/Listing.antt =====
-- `EncryptedKv::iter` and `get` see the same entries.
use oxistore.Common.{
  ℕ, ◌≡◌, refl, sym, subst, ◌∙◌, ap, Option, some, List, [], ◌∷◌, map, Result, ok, arith, All,
  if_pos, if_neg, Result-cases, inl, inr,
}
use oxistore.Common.Assoc.{lookup}
use oxistore.Common.Bytes.{Bytes, bytes_dec}
use oxistore.Core.Store.{KvStore}
use oxistore.Core.Contract.{items}
use oxistore.Core.Calls.{Values}
use oxistore.Encrypt.Aead.{decrypt_with_aead}
use oxistore.Encrypt.Store.Entries.{Holds, All-map, lookup_present}
use oxistore.Encrypt.Decorator.{
  Parts, EncryptedKv, derive_cell_id, read_value, decrypt_items, get, iter,
}
use oxistore.Encrypt.Decorator.Refinement.{Works, decrypt_value-exact}

each_unit : (l : List (Bytes × Bytes)) → All (λ e. Unit {0}) l
each_unit [] = tt
each_unit (e ∷ l) = (tt, each_unit l)

ok_unique : {E A : Type 0} (r : Result E A) (a b : A) → r ≡ ok a → r ≡ ok b → a ≡ b
ok_unique r a b e e' = ground arith

module _ {S T K R : Type 0} (kv : KvStore S T) (parts : Parts K R) (max_plaintext : ℕ)
    (holds : Holds kv) (works : Works max_plaintext parts) where
  -- What `get` reads, `decrypt_with_aead` opens.
  opened :
      (k ct : Bytes) (o : Option Bytes)
      → read_value parts k (some ct) ≡ ok o
      → (v : Bytes) × (decrypt_with_aead parts.aead works.key (derive_cell_id parts k) ct ≡ ok v)
        × (o ≡ some v)
  unfolding read_value
  opened k ct o e =
      let same = decrypt_value-exact parts max_plaintext works (derive_cell_id parts k) ct in
      elim (Result-cases (decrypt_with_aead parts.aead works.key (derive_cell_id parts k) ct)) [
        | inl (v, is_v) ↦ (v, is_v, ground (arith, is_v, same))
        | inr (x, is_x) ↦ absurd (ground (arith, is_x, same))
      ]

  decrypt_items-exact :
      (es : List (Bytes × Bytes)) (f : Values)
      → All (λ e. read_value parts e.0 (some e.1) ≡ ok (f e.0)) es
      → (ps : List (Bytes × Bytes)) × (decrypt_items parts parts.aead works.key (items es)
          ≡ ok (items ps))
        × (map (λ p. p.0) ps ≡ map (λ e. e.0) es)
        × ((q : Bytes) → read_value parts q (lookup bytes_dec q es) ≡ ok (lookup bytes_dec q ps))
  unfolding decrypt_items lookup read_value
  decrypt_items-exact [] f all = ([], refl, refl, λ q. refl)
  decrypt_items-exact ((k, ct) ∷ es) f all =
      let (v, is_v, f_is) = opened k ct (f k) all.0 in
      let (ps, runs, keys, found) = decrypt_items-exact es f all.1 in
      (
        (k, v) ∷ ps,
        rw (is_v, runs) refl,
        ap (◌∷◌ k) keys,
        λ q. elim (bytes_dec k q) [
          | yes p ↦
              ap (read_value parts q) (if_pos (bytes_dec k q) p _ _)
              ∙ subst (λ x. read_value parts x (some ct) ≡ ok (some v)) p (all.0 ∙ ap ok f_is)
              ∙ ap ok (sym (if_pos (bytes_dec k q) p _ _))
          | no ne ↦
              ap (read_value parts q) (if_neg (bytes_dec k q) ne _ _)
              ∙ found q
              ∙ ap ok (sym (if_neg (bytes_dec k q) ne _ _))
        ],
      )

  get-exact :
      (k : Bytes) (w : EncryptedKv S R)
      → (get kv parts k w).0 ≡ read_value parts k (lookup bytes_dec k (holds.entries w.inner))
  unfolding get
  get-exact k w = rw (holds.get_result w.inner k) refl

  iter-exact :
      (w : EncryptedKv S R) (ps : List (Bytes × Bytes))
      → decrypt_items parts parts.aead works.key (items (holds.entries w.inner)) ≡ ok (items ps)
      → (iter kv parts w).0 ≡ ok (items ps)
  unfolding iter
  iter-exact w ps e = rw (works.key_result, holds.iter_result w.inner, e) refl

  -- With an inner store, a key, a cipher and a generator that work as documented: when `get` of an
  -- encrypting store answers as a function, for every key without an error, `iter` lists the keys of
  -- the inner store in its order, without an error, each with the value that the function has, and the
  -- function has no value for any other key.
  pub iter-get :
      (w : EncryptedKv S R) (f : Values)
      → ((q : Bytes) → (get kv parts q w).0 ≡ ok (f q))
      → (ps : List (Bytes × Bytes)) × ((iter kv parts w).0 ≡ ok (items ps))
        × (map (λ p. p.0) ps ≡ map (λ e. e.0) (holds.entries w.inner))
        × ((q : Bytes) → lookup bytes_dec q ps ≡ f q)
  iter-get w f answers =
      let es = holds.entries w.inner in
      let each : All (λ e. read_value parts e.0 (some e.1) ≡ ok (f e.0)) es =
        All-map es
          (λ e (u, there).
            ap (read_value parts e.0) (sym there) ∙ sym (get-exact e.0 w) ∙ answers e.0)
          (lookup_present (λ e. Unit {0}) es (holds.distinct w.inner) (each_unit es)) in
      let (ps, runs, keys, found) = decrypt_items-exact es f each in
      (
        ps,
        iter-exact w ps runs,
        keys,
        λ q. ok_unique _ _ _ (found q) (sym (get-exact q w) ∙ answers q),
      )
