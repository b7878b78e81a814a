-- ===== src/Encrypt/Decorator/Commit.antt =====
-- Transactions of an `EncryptedKv`: `batch_write`, which `KvStore` provides, on the decorator.
use oxistore.Common.{
  arith, ℕ, ◌≤◌, ◌≡◌, refl, sym, subst, ◌∙◌, ap, Option, none, some, List, [], ◌∷◌, length, ok,
  map_ok, ite, if_pos, if_neg, All,
}
use oxistore.Common.Bytes.{Bytes, bytes_dec}
use oxistore.Core.Store.{KvStore, put_all, in_txn, batch_write}
use oxistore.Core.Contract.{Stores, Transacts}
use oxistore.Core.Calls.{Values}
use oxistore.Core.Transactions.{written}
use oxistore.Encrypt.Cell.RoundTrip.{key32-length}
use oxistore.Encrypt.Aead.{
  AeadKind, x_cha_cha20_poly1305, aes_gcm_siv256, x_cha_cha20_poly1305_aead, aes_gcm_siv256_aead,
  aead_of, encrypt_with_aead, decrypt_with_aead,
}
use oxistore.Encrypt.Aead.Sealing.{decrypt-encrypt_with_aead}
use oxistore.Encrypt.Decorator.{
  Parts, EncryptedKv, derive_cell_id, from_encrypt, read_value, kind_of, get,
}
use oxistore.Encrypt.Decorator.Txn as Txn
use oxistore.Encrypt.Decorator.Txn.{EncryptedTxn, as_txn}
use oxistore.Encrypt.Decorator.Store.{transaction, as_store}
use oxistore.Encrypt.Decorator.Refinement.{Works, decrypt_value-exact, get-exact}

kind_of-exact :
    {K R : Type 0} (parts : Parts K R) (kind : AeadKind)
    → parts.aead ≡ aead_of parts.ciphers kind
    → kind_of parts ≡ kind
unfolding kind_of aead_of x_cha_cha20_poly1305_aead aes_gcm_siv256_aead
kind_of-exact parts x_cha_cha20_poly1305 made =
    let nonce : parts.aead.nonce_len ≡ 24 = ap (λ a. a.nonce_len) made in ground arith
kind_of-exact parts aes_gcm_siv256 made =
    let nonce : parts.aead.nonce_len ≡ 12 = ap (λ a. a.nonce_len) made in ground arith

module _ {S T K R : Type 0} (kv : KvStore S T) (parts : Parts K R) (max_plaintext : ℕ)
    (stores : Stores kv) (acts : Transacts kv)
    (same : (s : S) (q : Bytes) → stores.value s q ≡ acts.value s q)
    (works : Works max_plaintext parts) (kind : AeadKind)
    (made : parts.aead ≡ aead_of parts.ciphers kind) where
  kind_of-made : kind_of parts ≡ kind
  kind_of-made = kind_of-exact parts kind made

  built_in : parts.aead ≡ aead_of parts.ciphers (kind_of parts)
  built_in = made ∙ ap (aead_of parts.ciphers) (sym kind_of-made)

  -- A transaction with the key and the AEAD of the decorator, that reads as the function.
  record IsOpen (t : EncryptedTxn T R) (f : Values) : Type 0 where
    own_key : t.key ≡ works.key
    own_aead : t.aead ≡ kind_of parts
    readable :
        (q : Bytes)
        → Txn.read_value kv.txn parts (kind_of parts) works.key q (acts.view t.inner q) ≡ ok (f q)

  reads_same :
      (q : Bytes) (o : Option Bytes)
      → Txn.read_value kv.txn parts (kind_of parts) works.key q o ≡ read_value parts q o
  unfolding read_value Txn.read_value
  reads_same q none = refl
  reads_same q (some ct) =
      ap (λ r. map_ok some (from_encrypt parts r))
        (ap (λ a. decrypt_with_aead a works.key (derive_cell_id parts q) ct) (sym built_in)
          ∙ sym (decrypt_value-exact parts max_plaintext works (derive_cell_id parts q) ct))

  put-exact :
      (k v ct : Bytes) (t : EncryptedTxn T R) (r' : R)
      → encrypt_with_aead
          (aead_of parts.ciphers t.aead)
          parts.rng
          t.key
          (derive_cell_id parts k)
          v
          t.random
        ≡ (ok ct, r')
      → Txn.put kv.txn parts k v t
        ≡ (ok tt, record t { inner = (kv.txn.put k ct t.inner).1; random = r' })
  unfolding Txn.put
  put-exact k v ct t r' e = rw (e, acts.put_result t.inner k ct) refl

  sealed :
      (k v : Bytes) (t : EncryptedTxn T R) (f : Values)
      → IsOpen t f
      → length v ≤ max_plaintext
      → (ct : Bytes) × (r' : R) × (encrypt_with_aead
            (aead_of parts.ciphers t.aead)
            parts.rng
            t.key
            (derive_cell_id parts k)
            v
            t.random
          ≡ (ok ct, r'))
        × (Txn.read_value kv.txn parts (kind_of parts) works.key k (some ct) ≡ ok (some v))
  unfolding Txn.read_value
  sealed k v t f open_ fits =
      let a : parts.aead ≡ aead_of parts.ciphers t.aead =
        built_in ∙ ap (aead_of parts.ciphers) (sym open_.own_aead) in
      let (ct, r', runs, long, opens) =
        decrypt-encrypt_with_aead max_plaintext parts.aead parts.rng works.seals works.random
          works.key (derive_cell_id parts k) v t.random
          (key32-length parts.provider parts.key_provider works.key works.key_result) fits in
      (
        ct,
        r',
        ap (λ x. encrypt_with_aead x parts.rng t.key (derive_cell_id parts k) v t.random) (sym a)
            ∙ ap (λ x. encrypt_with_aead parts.aead parts.rng x (derive_cell_id parts k) v t.random)
                open_.own_key
            ∙ runs,
        ap
              (λ x.
                map_ok some
                  (from_encrypt parts (decrypt_with_aead x works.key (derive_cell_id parts k) ct)))
              (sym built_in)
            ∙ ap (λ r. map_ok some (from_encrypt parts r)) opens,
      )

  put_all-IsOpen :
      (pairs : List (Bytes × Bytes)) (t : EncryptedTxn T R) (f : Values)
      → All (λ kv. length kv.1 ≤ max_plaintext) pairs
      → IsOpen t f
      → (t' : EncryptedTxn T R) × (put_all (as_txn kv.txn parts) pairs t ≡ (ok tt, t'))
        × IsOpen t' (λ q. written pairs q (f q))
  unfolding put_all as_txn
  put_all-IsOpen [] t f fits open_ = (t, refl, open_)
  put_all-IsOpen ((k, v) ∷ pairs) t f fits open_ =
      let (ct, r', runs, reads) = sealed k v t f open_ fits.0 in
      let t1 : EncryptedTxn T R = record t { inner = (kv.txn.put k ct t.inner).1; random = r' } in
      let next : IsOpen t1 (λ q. ite (bytes_dec k q) (some v) (f q)) = record {
        own_key = open_.own_key;
        own_aead = open_.own_aead;
        readable = λ q.
            ap (Txn.read_value kv.txn parts (kind_of parts) works.key q)
              (acts.view-put t.inner k ct q)
            ∙ elim (bytes_dec k q) [
              | yes p ↦
                  ap (Txn.read_value kv.txn parts (kind_of parts) works.key q)
                    (if_pos (bytes_dec k q) p _ _)
                  ∙ subst
                      (λ x.
                        Txn.read_value kv.txn parts (kind_of parts) works.key x (some ct)
                        ≡ ok (some v))
                      p reads
                  ∙ ap ok (sym (if_pos (bytes_dec k q) p _ _))
              | no ne ↦
                  ap (Txn.read_value kv.txn parts (kind_of parts) works.key q)
                    (if_neg (bytes_dec k q) ne _ _)
                  ∙ open_.readable q
                  ∙ ap ok (sym (if_neg (bytes_dec k q) ne _ _))
            ];
      } in
      let (t', rest, last) = put_all-IsOpen pairs t1 _ fits.1 next in
      (t', rw (put-exact k v ct t r' runs) rest, last)

  transaction-exact :
      (w : EncryptedKv S R)
      → transaction kv parts w ≡ (
        ok (record {
          inner = acts.begin w.inner;
          key = works.key;
          aead = kind_of parts;
          random = w.random;
        }),
        w,
      )
  unfolding transaction
  transaction-exact w = rw (acts.transaction_result w.inner, works.key_result) refl

  batch_write-exact :
      (pairs : List (Bytes × Bytes)) (w : EncryptedKv S R) (t : EncryptedTxn T R)
      → put_all (as_txn kv.txn parts) pairs (record {
        inner = acts.begin w.inner;
        key = works.key;
        aead = kind_of parts;
        random = w.random;
      })
        ≡ (ok tt, t)
      → batch_write (as_store kv parts) pairs w
        ≡ (ok tt, record w { inner = (kv.commit t.inner w.inner).1 })
  unfolding batch_write in_txn as_store
  batch_write-exact pairs w t e =
      rw (transaction-exact w, e, acts.commit_result t.inner w.inner) refl

  -- An encrypting store that was made with one of the two built-in ciphers, over a store whose
  -- transactions keep their contract, with a key, a cipher and a generator that work as documented:
  -- when every key can be read, `batch_write` of values that fit the cipher succeeds, and afterwards
  -- `get` gives for each key the last value written to it, and the old one for the other keys.
  pub get-batch_write :
      (pairs : List (Bytes × Bytes)) (w : EncryptedKv S R) (f : Values)
      → All (λ kv. length kv.1 ≤ max_plaintext) pairs
      → ((q : Bytes) → (get kv parts q w).0 ≡ ok (f q))
      → ((batch_write (as_store kv parts) pairs w).0 ≡ ok tt)
        × ((q : Bytes)
            → (get kv parts q (batch_write (as_store kv parts) pairs w).1).0
              ≡ ok (written pairs q (f q)))
  get-batch_write pairs w f fits reads =
      let t0 : EncryptedTxn T R = record {
        inner = acts.begin w.inner;
        key = works.key;
        aead = kind_of parts;
        random = w.random;
      } in
      let start : IsOpen t0 f = record {
        own_key = refl;
        own_aead = refl;
        readable = λ q.
            reads_same q (acts.view (acts.begin w.inner) q)
            ∙ ap (read_value parts q) (acts.view-begin w.inner q ∙ sym (same w.inner q))
            ∙ sym (ap (λ r. r.0) (get-exact kv parts max_plaintext stores works q w))
            ∙ reads q;
      } in
      let (t, runs, last) = put_all-IsOpen pairs t0 f fits start in
      let s : S = (kv.commit t.inner w.inner).1 in
      rw (batch_write-exact pairs w t runs) (
        refl,
        λ q.
            ap (λ r. r.0) (get-exact kv parts max_plaintext stores works q (record w { inner = s }))
            ∙ ap (read_value parts q) (same s q ∙ acts.value-commit t.inner w.inner q)
            ∙ sym (reads_same q (acts.view t.inner q))
            ∙ last.readable q,
      )
