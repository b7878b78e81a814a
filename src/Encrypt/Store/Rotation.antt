-- ===== src/Encrypt/Store/Rotation.antt =====
-- What can be read from an `EncryptedKvEnvelope` after a write and after a rotation of its keys, over
-- an inner store that keeps its contract.
use oxistore.Common.{
  ℕ, ◌+◌, ◌-◌, ◌^◌, ◌≤◌, ◌<◌, ◌≡◌, ◌≢◌, refl, sym, ◌∙◌, ap, none, some, List, [], ◌∷◌, map, length,
  ok, All, arith, Option-cases, inl, inr, collect, take,
}
use oxistore.Common.Assoc.{lookup}
use oxistore.Common.Bytes.{Bytes, bytes_dec}
use oxistore.Core.Store.{KvStore}
use oxistore.Core.Contract.{items}
use oxistore.Encrypt.Errors.{Rng}
use oxistore.Encrypt.Keyring.{active_kek, active_version}
use oxistore.Encrypt.Envelope.{Aead, EnvelopeCipher, decrypt, add_kek_version, from_le_bytes}
use oxistore.Encrypt.Envelope.RoundTrip.{IsAead, IsRng, IsCipher, decrypt-encrypt}
use oxistore.Encrypt.Envelope.Rotation.{
  decrypt-add_kek_version_old, add_kek_version_ok, add_kek_version-IsCipher,
}
use oxistore.Encrypt.Store.Entries.{Holds, All-map, lookup_found, lookup_present}
use oxistore.Encrypt.Store.{
  EncryptedKvEnvelope, Texts, read_value, get, put, rotate_entries, rotate_kek, from_store,
}
use oxistore.Encrypt.Store.Rounds.{
  get-exact, put-exact, reads, reads-put_self, reads-put_ne, Readable, rotate_entries-Keeps,
}

module _ {S T R : Type 0} (store : KvStore S T) (cipher : Aead) (rng : Rng R) (texts : Texts)
    (holds : Holds store) (aead : IsAead cipher) (random : IsRng rng) where
  -- With an inner store, an AEAD and a random generator that work as documented, and a keyring in
  -- order: `put` of a value that the AEAD takes succeeds, then `get` of the key returns the value,
  -- and every other key reads as before.
  pub get-put :
      (w : EncryptedKvEnvelope S R) (k v : Bytes)
      → IsCipher w.cipher
      → length v ≤ aead.max_plaintext
      → ((put store cipher rng texts k v w).0 ≡ ok tt)
        × ((get store cipher rng texts k (put store cipher rng texts k v w).1).0 ≡ ok (some v))
        × ((q : Bytes)
            → k ≢ q
            → (get store cipher rng texts q (put store cipher rng texts k v w).1).0
              ≡ (get store cipher rng texts q w).0)
  get-put w k v h fits =
      let (env, r', runs, long, opens) =
        decrypt-encrypt cipher rng aead random w.cipher v k w.random h fits in
      let w' : EncryptedKvEnvelope S R = record w {
        inner = (store.put k env w.inner).1;
        random = r';
      } in
      rw (put-exact store cipher rng texts holds aead random w k v env r' runs) (
        refl,
        ap (λ r. r.0) (get-exact store cipher rng texts holds aead random w' k)
            ∙ reads-put_self store cipher rng texts holds aead random w.cipher w.inner k env v
                opens,
        (λ q ne.
            ap (λ r. r.0) (get-exact store cipher rng texts holds aead random w' q)
            ∙ reads-put_ne store cipher rng texts holds aead random w.cipher w.inner k env q ne
            ∙ sym (ap (λ r. r.0) (get-exact store cipher rng texts holds aead random w q))),
      )

  collect-items :
      (l : List (Bytes × Bytes))
      → collect (map (from_store store cipher rng texts) (items l)) ≡ ok l
  collect-items [] = refl
  collect-items (kv ∷ l) = rw (collect-items l) refl

  rotate_kek-exact :
      (w w' : EncryptedKvEnvelope S R) (new_kek : Bytes) (v n : ℕ)
      → (add_kek_version new_kek w.cipher).0 ≡ ok v
      → rotate_entries store cipher rng texts
          (holds.entries w.inner)
          0
          (record w { cipher = (add_kek_version new_kek w.cipher).1 })
        ≡ (ok n, w')
      → rotate_kek store cipher rng texts new_kek w ≡ (ok n, w')
  unfolding rotate_kek
  rotate_kek-exact w w' new_kek v n e run =
      rw (holds.iter_result w.inner, collect-items (holds.entries w.inner), e) run

  reads-found :
      (c : EnvelopeCipher) (s : S) (q env plaintext : Bytes)
      → lookup bytes_dec q (holds.entries s) ≡ some env
      → decrypt cipher c env q ≡ ok plaintext
      → reads store cipher rng texts holds aead random c s q ≡ ok (some plaintext)
  unfolding read_value
  reads-found c s q env plaintext e1 e2 = rw (e1, e2) refl

  reads_missing :
      (c : EnvelopeCipher) (s : S) (q : Bytes)
      → lookup bytes_dec q (holds.entries s) ≡ none
      → reads store cipher rng texts holds aead random c s q ≡ ok none
  unfolding read_value
  reads_missing c s q e = rw (e) refl

  -- Two ciphers that decrypt every entry alike read every key alike.
  reads_congr :
      (c c' : EnvelopeCipher) (s : S) (q : Bytes)
      → All
          (λ kv.
            (plaintext : Bytes) × (decrypt cipher c kv.1 kv.0 ≡ ok plaintext)
            × (decrypt cipher c' kv.1 kv.0 ≡ ok plaintext))
          (holds.entries s)
      → reads store cipher rng texts holds aead random c s q
        ≡ reads store cipher rng texts holds aead random c' s q
  reads_congr c c' s q all = elim (Option-cases (lookup bytes_dec q (holds.entries s))) [
    | inl missing ↦ reads_missing c s q missing ∙ sym (reads_missing c' s q missing)
    | inr (env, is_env) ↦
        let (plaintext, e, e') = lookup_found _ (holds.entries s) q env all is_env in
        reads-found c s q env plaintext is_env e ∙ sym (reads-found c' s q env plaintext is_env e')
  ]

  -- With an inner store, an AEAD and a random generator that work as documented, and a keyring in
  -- order: `rotate_kek` with a key of 32 bytes, on a store whose every entry can be decrypted and a cipher
  -- with room for a key, returns the number of entries; every key reads as before; the new key is the
  -- active one, and the stored envelope of every entry carries the version of the active key.
  pub get-rotate_kek :
      (w : EncryptedKvEnvelope S R) (new_kek : Bytes)
      → IsCipher w.cipher
      → length new_kek ≡ 32
      → length w.cipher.keyring.versions < 2 ^ 32 - 2
      → All
          (λ kv. (plaintext : Bytes) × (decrypt cipher w.cipher kv.1 kv.0 ≡ ok plaintext))
          (holds.entries w.inner)
      → ((rotate_kek store cipher rng texts new_kek w).0 ≡ ok (length (holds.entries w.inner)))
        × ((q : Bytes)
            → (get store cipher rng texts q (rotate_kek store cipher rng texts new_kek w).1).0
              ≡ (get store cipher rng texts q w).0)
        × (active_kek (rotate_kek store cipher rng texts new_kek w).1.cipher.keyring ≡ ok new_kek)
        × All
            (λ kv.
              (env : Bytes) × (lookup bytes_dec kv.0
                  (holds.entries (rotate_kek store cipher rng texts new_kek w).1.inner)
                ≡ some env)
              × (active_version (rotate_kek store cipher rng texts new_kek w).1.cipher.keyring
                  ≡ ok (from_le_bytes (take 4 env))))
            (holds.entries w.inner)
  get-rotate_kek w new_kek h k room all =
      let c' : EnvelopeCipher = (add_kek_version new_kek w.cipher).1 in
      let both : All
          (λ kv.
            (plaintext : Bytes) × (decrypt cipher w.cipher kv.1 kv.0 ≡ ok plaintext)
            × (decrypt cipher c' kv.1 kv.0 ≡ ok plaintext))
          (holds.entries w.inner) =
        All-map (holds.entries w.inner)
          (λ kv (plaintext, e). (
            plaintext,
            e,
            (decrypt-add_kek_version_old cipher rng aead random w.cipher new_kek kv.1 kv.0 plaintext
                h k room e).0,
          ))
          all in
      let readable : All (Readable store cipher rng texts holds aead random c' w.inner)
          (holds.entries w.inner) =
        All-map (holds.entries w.inner)
          (λ kv ((plaintext, e, e'), there).
            (plaintext, e', reads-found c' w.inner kv.0 kv.1 plaintext there e'))
          (lookup_present _ (holds.entries w.inner) (holds.distinct w.inner) both) in
      let (is_kek, h') =
        add_kek_version-IsCipher cipher rng aead random w.cipher new_kek h k room in
      let (w', run, keep, done) =
        rotate_entries-Keeps store cipher rng texts holds aead random (holds.entries w.inner) 0 c'
          (record w { cipher = c' }) h' refl readable in
      let e : 0 + length (holds.entries w.inner) ≡ length (holds.entries w.inner) = omega arith in
      rw
        (rotate_kek-exact w w' new_kek _ _
          (add_kek_version_ok cipher rng aead random w.cipher new_kek h k room) run)
        (
          ap ok e,
          (λ q.
              ap (λ r. r.0) (get-exact store cipher rng texts holds aead random w' q)
              ∙ ap (λ c. reads store cipher rng texts holds aead random c w'.inner q)
                  keep.same_cipher
              ∙ keep.same_reads q
              ∙ sym (reads_congr w.cipher c' w.inner q both)
              ∙ sym (ap (λ r. r.0) (get-exact store cipher rng texts holds aead random w q))),
          rw (keep.same_cipher) is_kek,
          rw (keep.same_cipher) done,
        )
