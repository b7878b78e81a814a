-- ===== src/Encrypt/Store/Entries.antt =====
-- The documented contract of an inner store, as far as `EncryptedKvEnvelope` relies on it, and its
-- entries one by one.
use oxistore.Common.{
  ◌≡◌, refl, sym, ◌∙◌, none, some, List, [], ◌∷◌, ok, All, arith, ite, if_pos, if_neg,
}
use oxistore.Common.Assoc.{lookup, Distinct}
use oxistore.Common.Bytes.{Bytes, bytes_dec}
use oxistore.Core.Store.{KvStore}
use oxistore.Core.Contract.{items}

-- The store holds entries, no key twice; reads change nothing, and a write is visible at once.
pub record Holds {S T : Type 0} (store : KvStore S T) : Type 0 where
  pub entries : S → List (Bytes × Bytes)
  pub distinct : (s : S) → Distinct bytes_dec (entries s)
  pub get_result : (s : S) (k : Bytes) → store.get k s ≡ (ok (lookup bytes_dec k (entries s)), s)
  pub iter_result : (s : S) → store.iter s ≡ (ok (items (entries s)), s)
  pub put_result : (s : S) (k v : Bytes) → (store.put k v s).0 ≡ ok tt
  pub lookup-put :
      (s : S) (k v q : Bytes)
      → lookup bytes_dec q (entries (store.put k v s).1)
        ≡ ite (bytes_dec k q) (some v) (lookup bytes_dec q (entries s))

pub All-map :
    {A : Type 0} {P Q : A → Type 0} (l : List A) → ((x : A) → P x → Q x) → All P l → All Q l
All-map [] f h = tt
All-map (x ∷ l) f h = (f x h.0, All-map l f h.1)

pub lookup_found :
    (P : Bytes × Bytes → Type 0) (l : List (Bytes × Bytes)) (q v : Bytes)
    → All P l
    → lookup bytes_dec q l ≡ some v
    → P (q, v)
unfolding lookup
lookup_found P [] q v all e = absurd (ground arith)
lookup_found P ((j, u) ∷ l) q v all e = elim (bytes_dec j q) [
  | yes same ↦
      let is_v : u ≡ v =
        let e2 : some u ≡ some v = sym (if_pos (bytes_dec j q) same _ _) ∙ e in ground arith in
      rw (← same, ← is_v) all.0
  | no ne ↦
      let deeper : lookup bytes_dec q l ≡ some v = sym (if_neg (bytes_dec j q) ne _ _) ∙ e in
      lookup_found P l q v all.1 deeper
]

pub lookup_present :
    (P : Bytes × Bytes → Type 0) (l : List (Bytes × Bytes))
    → Distinct bytes_dec l
    → All P l
    → All (λ kv. P kv × (lookup bytes_dec kv.0 l ≡ some kv.1)) l
unfolding lookup
lookup_present P [] d all = tt
lookup_present P ((j, u) ∷ l) d all = (
  (all.0, if_pos (bytes_dec j j) refl _ _),
  All-map l
      (λ kv (p, e). (
        p,
        elim (bytes_dec j kv.0) [
          | yes same ↦
              let twice : lookup bytes_dec kv.0 l ≡ none = rw (← same) d.0 in
              absurd (ground (arith, e))
          | no ne ↦ if_neg (bytes_dec j kv.0) ne _ _ ∙ e
        ],
      ))
      (lookup_present P l d.1 all.1),
)
