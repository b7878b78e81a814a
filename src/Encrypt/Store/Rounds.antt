-- ===== src/Encrypt/Store/Rounds.antt =====
-- The rounds of `rotate_kek` of crates/oxistore-encrypt/src/envelope.rs, and the reads of an
-- `EncryptedKvEnvelope`.
use oxistore.Common.{
  ℕ, suc, ◌+◌, ◌≡◌, ◌≢◌, refl, sym, ◌∙◌, Option, some, List, [], ◌∷◌, length, Result, ok, All,
  arith, if_pos, if_neg, take,
}
use oxistore.Common.Assoc.{lookup}
use oxistore.Common.Bytes.{Bytes, bytes_dec}
use oxistore.Core.Store.{StoreError, KvStore}
use oxistore.Encrypt.Errors.{Rng}
use oxistore.Encrypt.Keyring.{active_version}
use oxistore.Encrypt.Envelope.{Aead, EnvelopeCipher, decrypt, from_le_bytes}
use oxistore.Encrypt.Envelope.Seal.{encrypt, rewrap_envelope}
use oxistore.Encrypt.Envelope.RoundTrip.{IsAead, IsRng, IsCipher}
use oxistore.Encrypt.Envelope.Rotation.{decrypt-rewrap_envelope}
use oxistore.Encrypt.Store.Entries.{Holds, All-map}
use oxistore.Encrypt.Store.{
  EncryptedKvEnvelope, Texts, read_value, get, put, rotate_entry, rotate_entries,
}

module _ {S T R : Type 0} (store : KvStore S T) (cipher : Aead) (rng : Rng R) (texts : Texts)
    (holds : Holds store) (aead : IsAead cipher) (random : IsRng rng) where
  abbrev pub value : EncryptedKvEnvelope S R → Bytes → Option Bytes
  value w k = lookup bytes_dec k (holds.entries w.inner)

  pub get-exact :
      (w : EncryptedKvEnvelope S R) (k : Bytes)
      → get store cipher rng texts k w
        ≡ (read_value store cipher rng texts w.cipher k (value w k), w)
  unfolding get
  get-exact w k = rw (holds.get_result w.inner k) refl

  pub put-exact :
      (w : EncryptedKvEnvelope S R) (k v env : Bytes) (r' : R)
      → encrypt cipher rng w.cipher v k w.random ≡ (ok env, r')
      → put store cipher rng texts k v w
        ≡ (ok tt, record w { inner = (store.put k env w.inner).1; random = r' })
  unfolding put
  put-exact w k v env r' e = rw (e, holds.put_result w.inner k env) refl

  rotate_entry-exact :
      (c : EnvelopeCipher) (w : EncryptedKvEnvelope S R) (k old env : Bytes) (r' : R)
      → w.cipher ≡ c
      → rewrap_envelope cipher rng c old w.random ≡ (ok env, r')
      → rotate_entry store cipher rng texts k old w
        ≡ (ok tt, record w { inner = (store.put k env w.inner).1; random = r' })
  unfolding rotate_entry
  rotate_entry-exact c w k old env r' same e =
      let run : rewrap_envelope cipher rng w.cipher old w.random ≡ (ok env, r') = rw (same) e in
      rw (run, holds.put_result w.inner k env) refl

  abbrev pub reads : EnvelopeCipher → S → Bytes → Result StoreError (Option Bytes)
  reads c s q = read_value store cipher rng texts c q (lookup bytes_dec q (holds.entries s))

  -- After an envelope is written, its key reads as the plaintext.
  pub reads-put_self :
      (c : EnvelopeCipher) (s : S) (k env plaintext : Bytes)
      → decrypt cipher c env k ≡ ok plaintext
      → reads c (store.put k env s).1 k ≡ ok (some plaintext)
  unfolding read_value
  reads-put_self c s k env plaintext e =
      rw (holds.lookup-put s k env k, if_pos (bytes_dec k k) refl, e) refl

  pub reads-put_ne :
      (c : EnvelopeCipher) (s : S) (k env q : Bytes)
      → k ≢ q
      → reads c (store.put k env s).1 q ≡ reads c s q
  reads-put_ne c s k env q ne = rw (holds.lookup-put s k env q, if_neg (bytes_dec k q) ne) refl

  -- The entry of a key carries the active version.
  abbrev pub Rewrapped : EnvelopeCipher → S → Bytes → Type 0
  Rewrapped c s k =
      (env : Bytes) × (lookup bytes_dec k (holds.entries s) ≡ some env)
      × (active_version c.keyring ≡ ok (from_le_bytes (take 4 env)))

  Rewrapped-put_self :
      (c : EnvelopeCipher) (s : S) (k env : Bytes)
      → active_version c.keyring ≡ ok (from_le_bytes (take 4 env))
      → Rewrapped c (store.put k env s).1 k
  Rewrapped-put_self c s k env e =
      (env, holds.lookup-put s k env k ∙ if_pos (bytes_dec k k) refl _ _, e)

  Rewrapped-put :
      (c : EnvelopeCipher) (s : S) (k env q : Bytes)
      → active_version c.keyring ≡ ok (from_le_bytes (take 4 env))
      → Rewrapped c s q
      → Rewrapped c (store.put k env s).1 q
  Rewrapped-put c s k env q e (old, there, version) = elim (bytes_dec k q) [
    | yes same ↦ (env, holds.lookup-put s k env q ∙ if_pos (bytes_dec k q) same _ _, e)
    | no ne ↦ (old, holds.lookup-put s k env q ∙ if_neg (bytes_dec k q) ne _ _ ∙ there, version)
  ]

  -- What rounds of the loop keep: the cipher, what every key reads as, and the entries that carry the
  -- active version.
  pub record Keeps (c : EnvelopeCipher) (s : S) (w' : EncryptedKvEnvelope S R) : Type 0 where
    pub same_cipher : w'.cipher ≡ c
    pub same_reads : (q : Bytes) → reads c w'.inner q ≡ reads c s q
    pub still : (q : Bytes) → Rewrapped c s q → Rewrapped c w'.inner q

  rotate_entry-Keeps :
      (c : EnvelopeCipher) (w : EncryptedKvEnvelope S R) (k old plaintext : Bytes)
      → IsCipher c
      → w.cipher ≡ c
      → decrypt cipher c old k ≡ ok plaintext
      → reads c w.inner k ≡ ok (some plaintext)
      → (w' : EncryptedKvEnvelope S R) × (rotate_entry store cipher rng texts k old w ≡ (ok tt, w'))
        × Keeps c w.inner w'
        × Rewrapped c w'.inner k
  rotate_entry-Keeps c w k old plaintext h is_c e current =
      let (env, r', runs, is_version, same, long, opens) =
        decrypt-rewrap_envelope cipher rng aead random c old k plaintext w.random h e in
      (
        record w { inner = (store.put k env w.inner).1; random = r' },
        rotate_entry-exact c w k old env r' is_c runs,
        record {
          same_cipher = is_c;
          same_reads = λ q. elim (bytes_dec k q) [
            | yes is_k ↦
                let there : reads c (store.put k env w.inner).1 k ≡ reads c w.inner k =
                  reads-put_self c w.inner k env plaintext opens ∙ sym current in
                rw (← is_k) there
            | no ne ↦ reads-put_ne c w.inner k env q ne
          ];
          still = λ q before. Rewrapped-put c w.inner k env q is_version before;
        },
        Rewrapped-put_self c w.inner k env is_version,
      )

  -- An entry that the cipher can decrypt, and whose key reads as its plaintext.
  abbrev pub Readable : EnvelopeCipher → S → Bytes × Bytes → Type 0
  Readable c s kv =
      (plaintext : Bytes) × (decrypt cipher c kv.1 kv.0 ≡ ok plaintext)
      × (reads c s kv.0 ≡ ok (some plaintext))

  pub rotate_entries-Keeps :
      (l : List (Bytes × Bytes)) (n : ℕ) (c : EnvelopeCipher) (w : EncryptedKvEnvelope S R)
      → IsCipher c
      → w.cipher ≡ c
      → All (Readable c w.inner) l
      → (w' : EncryptedKvEnvelope S R) × (rotate_entries store cipher rng texts l n w
          ≡ (ok (n + length l), w'))
        × Keeps c w.inner w'
        × All (λ kv. Rewrapped c w'.inner kv.0) l
  unfolding rotate_entries
  rotate_entries-Keeps [] n c w h is_c all =
      let e : n ≡ n + 0 = omega arith in
      (
        w,
        rw (← e) refl,
        record { same_cipher = is_c; same_reads = λ q. refl; still = λ q before. before },
        tt,
      )
  rotate_entries-Keeps ((k, old) ∷ l) n c w h is_c all =
      let (plaintext, opens, current) = all.0 in
      let (w1, run1, keep1, done1) = rotate_entry-Keeps c w k old plaintext h is_c opens current in
      let all1 : All (Readable c w1.inner) l =
        All-map l (λ kv (p, o, cur). (p, o, keep1.same_reads kv.0 ∙ cur)) all.1 in
      let (w2, run2, keep2, done2) = rotate_entries-Keeps l (n + 1) c w1 h keep1.same_cipher all1 in
      let e : n + 1 + length l ≡ n + suc (length l) = omega arith in
      (
        w2,
        rw (run1, run2, e) refl,
        record {
          same_cipher = keep2.same_cipher;
          same_reads = λ q. keep2.same_reads q ∙ keep1.same_reads q;
          still = λ q before. keep2.still q (keep1.still q before);
        },
        (keep2.still k done1, done2),
      )
