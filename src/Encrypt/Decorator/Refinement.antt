-- ===== src/Encrypt/Decorator/Refinement.antt =====
-- `EncryptedKv` answers as a function from keys to values.
use oxistore.Common.{
  ℕ, ◌≤◌, ◌≡◌, refl, sym, subst, ◌∙◌, ap, Option, none, some, List, length, ok, ite, if_pos, if_neg,
  All,
}
use oxistore.Common.Bytes.{Bytes, bytes_dec}
use oxistore.Core.Store.{KvStore}
use oxistore.Core.Contract.{Stores}
use oxistore.Core.Calls.{
  Call, read, write, remove, flush, Reply, Values, update, without_value, run, Ascending, replay,
}
use oxistore.Core.Calls.Refinement.{SimulatesWhere, run-replay_where}
use oxistore.Encrypt.Envelope.RoundTrip.{IsRng}
use oxistore.Encrypt.Keys.{key32}
use oxistore.Encrypt.Cell.RoundTrip.{key32-length}
use oxistore.Encrypt.Aead.{encrypt_with_aead, decrypt_with_aead}
use oxistore.Encrypt.Aead.Sealing.{IsSealing, decrypt-encrypt_with_aead}
use oxistore.Encrypt.Decorator as Decorator
use oxistore.Encrypt.Decorator.{
  Parts, EncryptedKv, derive_cell_id, encrypt_value, decrypt_value, read_value, get, put, delete,
}

-- The calls on the decorator, with the values that fit the AEAD.
abbrev pub Fits : ℕ → Call → Type 0
Fits max_plaintext (read k) = Unit
Fits max_plaintext (write k v) = length v ≤ max_plaintext
Fits max_plaintext (remove k) = Unit
Fits max_plaintext flush = Unit

module _ {S T K R : Type 0} (kv : KvStore S T) (parts : Parts K R) where
  unfoldable pub step : ℕ → Call → EncryptedKv S R → Reply × EncryptedKv S R
  step now (read k) = get kv parts k
  step now (write k v) = λ w. without_value (put kv parts k v w)
  step now (remove k) = λ w. without_value (delete kv parts k w)
  step now flush = λ w. without_value (Decorator.flush kv parts w)

-- The key provider gives a key, and the cipher and the generator work as documented.
pub record Works {K R : Type 0} (max_plaintext : ℕ) (parts : Parts K R) : Type 0 where
  pub key : Bytes
  pub key_result : key32 parts.provider parts.key_provider ≡ ok key
  pub seals : IsSealing max_plaintext parts.aead
  pub random : IsRng parts.rng

module _ {K R : Type 0} (parts : Parts K R) (max_plaintext : ℕ)
    (works : Works max_plaintext parts) where
  encrypt_value-exact :
      (aad pt : Bytes) (r : R)
      → encrypt_value parts aad pt r ≡ encrypt_with_aead parts.aead parts.rng works.key aad pt r
  unfolding encrypt_value
  encrypt_value-exact aad pt r = rw (encrypt_value, works.key_result) refl

  pub decrypt_value-exact :
      (aad ct : Bytes) → decrypt_value parts aad ct ≡ decrypt_with_aead parts.aead works.key aad ct
  unfolding decrypt_value
  decrypt_value-exact aad ct = rw (decrypt_value, works.key_result) refl

  pub read_value-some :
      (k ct v : Bytes)
      → decrypt_with_aead parts.aead works.key (derive_cell_id parts k) ct ≡ ok v
      → read_value parts k (some ct) ≡ ok (some v)
  unfolding read_value
  read_value-some k ct v e = rw (decrypt_value-exact (derive_cell_id parts k) ct, e) refl

module _ {S T K R : Type 0} (kv : KvStore S T) (parts : Parts K R) (max_plaintext : ℕ)
    (stores : Stores kv) (works : Works max_plaintext parts) where
  -- What the inner store has for each key is an encryption of the value.
  pub record IsEncrypted (t : ℕ) (w : EncryptedKv S R) (f : Values) : Type 0 where
    pub readable : (q : Bytes) → read_value parts q (stores.value w.inner q) ≡ ok (f q)

  pub get-exact :
      (k : Bytes) (w : EncryptedKv S R)
      → get kv parts k w
        ≡ (read_value parts k (stores.value w.inner k), record w { inner = (kv.get k w.inner).1 })
  unfolding get
  get-exact k w = rw (stores.get_result w.inner k) refl

  -- An encryption that `read_value` reads back.
  pub sealed :
      (k v : Bytes) (r : R)
      → length v ≤ max_plaintext
      → (ct : Bytes) × (r' : R) × (encrypt_value parts (derive_cell_id parts k) v r ≡ (ok ct, r'))
        × (read_value parts k (some ct) ≡ ok (some v))
  sealed k v r fits =
      let (wire, r', runs, long, opens) =
        decrypt-encrypt_with_aead max_plaintext parts.aead parts.rng works.seals works.random
          works.key (derive_cell_id parts k) v r
          (key32-length parts.provider parts.key_provider works.key works.key_result) fits in
      (
        wire,
        r',
        encrypt_value-exact parts max_plaintext works (derive_cell_id parts k) v r ∙ runs,
        read_value-some parts max_plaintext works k wire v opens,
      )

  put-exact :
      (k v ct : Bytes) (w : EncryptedKv S R) (r' : R)
      → encrypt_value parts (derive_cell_id parts k) v w.random ≡ (ok ct, r')
      → put kv parts k v w ≡ (ok tt, record { inner = (kv.put k ct w.inner).1; random = r' })
  unfolding put
  put-exact k v ct w r' e = rw (e, stores.put_result w.inner k ct) refl

  -- One key read anew.
  read_updated :
      (k q : Bytes) (s : Option Bytes) (o : Option Bytes) (w : EncryptedKv S R) (f : Values)
      → read_value parts k s ≡ ok o
      → read_value parts q (stores.value w.inner q) ≡ ok (f q)
      → read_value parts q (ite (bytes_dec k q) s (stores.value w.inner q)) ≡ ok (update k o f q)
  read_updated k q s o w f new old = elim (bytes_dec k q) [
    | yes same ↦
        ap (read_value parts q) (if_pos (bytes_dec k q) same _ _)
        ∙ subst (λ x. read_value parts x s ≡ ok o) same new
        ∙ ap ok (sym (if_pos (bytes_dec k q) same _ _))
    | no ne ↦
        ap (read_value parts q) (if_neg (bytes_dec k q) ne _ _)
        ∙ old
        ∙ ap ok (sym (if_neg (bytes_dec k q) ne _ _))
  ]

  delete-exact :
      (k : Bytes) (w : EncryptedKv S R)
      → delete kv parts k w ≡ (ok tt, record w { inner = (kv.delete k w.inner).1 })
  unfolding delete
  delete-exact k w = rw (stores.delete_result w.inner k) refl

  flush-exact :
      (w : EncryptedKv S R)
      → Decorator.flush kv parts w ≡ (ok tt, record w { inner = (kv.flush w.inner).1 })
  unfolding Decorator.flush
  flush-exact w = rw (stores.flush_result w.inner) refl

  read_value-none : (k : Bytes) → read_value parts k none ≡ ok none
  unfolding read_value
  read_value-none k = refl

  step-SimulatesWhere : SimulatesWhere (Fits max_plaintext) IsEncrypted (step kv parts)
  unfolding step
  step-SimulatesWhere t now (read k) w f h fits inv = rw (get-exact k w) (
    inv.readable k,
    record {
      readable = λ q. ap (read_value parts q) (stores.value-get w.inner k q) ∙ inv.readable q;
    },
  )
  step-SimulatesWhere t now (write k v) w f h fits inv =
      let (ct, r', runs, reads) = sealed k v w.random fits in
      rw (put-exact k v ct w r' runs) (
        refl,
        record {
          readable = λ q.
              ap (read_value parts q) (stores.value-put w.inner k ct q)
              ∙ read_updated k q (some ct) (some v) w f reads (inv.readable q);
        },
      )
  step-SimulatesWhere t now (remove k) w f h fits inv = rw (delete-exact k w) (
    refl,
    record {
      readable = λ q.
          ap (read_value parts q) (stores.value-delete w.inner k q)
          ∙ read_updated k q none none w f (read_value-none k) (inv.readable q);
    },
  )
  step-SimulatesWhere t now flush w f h fits inv = rw (flush-exact w) (
    refl,
    record {
      readable = λ q. ap (read_value parts q) (stores.value-flush w.inner q) ∙ inv.readable q;
    },
  )

  -- An encrypting store over a store that keeps its contract, with a key, a cipher and a generator that
  -- work as documented: when what the inner store has for each key is an encryption of the value, every
  -- sequence of gets, puts, deletes and flushes whose values fit the cipher is answered, without an
  -- error, as a function from keys to values answers it.
  pub run-EncryptedKv_refines :
      (calls : List (ℕ × Call)) (t : ℕ) (w : EncryptedKv S R) (f : Values)
      → Ascending t calls
      → All (λ c. Fits max_plaintext c.1) calls
      → IsEncrypted t w f
      → (run (step kv parts) calls w).0 ≡ replay calls f
  run-EncryptedKv_refines =
      run-replay_where (Fits max_plaintext) IsEncrypted (step kv parts) step-SimulatesWhere
