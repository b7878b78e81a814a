-- ===== src/Tests/EnvelopeStoreExamples.antt =====
-- An encrypted store over a list of entries, with the cipher of the envelope examples.
use oxistore.Common.{
  ◌≡◌, ◌≢◌, refl, ◌∙◌, some, List, [], ◌∷◌, ◌++◌, length, ok, ite, if_pos, if_neg, arith, All, take,
}
use oxistore.Common.Assoc.{
  lookup, without, lookup-snoc_self, lookup-snoc_ne, lookup-without_ne, Distinct,
}
use oxistore.Common.Bytes.{Bytes, bytes_dec}
use oxistore.Core.Store.{KvStore, KvTxn, pure, raise, read_only}
use oxistore.Core.Contract.{items}
use oxistore.Encrypt.Keyring.{active_kek, active_version}
use oxistore.Encrypt.Envelope.{from_le_bytes}
use oxistore.Encrypt.Store.{EncryptedKvEnvelope, Texts, get, put, rotate_kek}
use oxistore.Encrypt.Store.Entries.{Holds}
use oxistore.Encrypt.Store.Rotation.{get-put, get-rotate_kek}
use oxistore.Tests.ListMap.{ListMap, Distinct-put}
use oxistore.Tests.EnvelopeExamples.{
  tagging, tagging-IsAead, constant, constant-IsRng, one_key, one_key-IsCipher, envelope, cell,
  plaintext, second_kek, is_decrypted,
}

abbrev pub Rows : Type 0
Rows = ListMap bytes_dec Bytes

abbrev rows_txn : KvTxn Rows
rows_txn = record {
  get = λ k s. (ok (lookup bytes_dec k s.0), s);
  put = λ k v. raise read_only;
  delete = λ k. raise read_only;
}

abbrev pub rows : KvStore Rows Rows
rows = record {
  txn = rows_txn;
  get = λ k s. (ok (lookup bytes_dec k s.0), s);
  put = λ k v s.
      (ok tt, (without bytes_dec k s.0 ++ (k, v) ∷ [], Distinct-put bytes_dec k v s.0 s.1));
  delete = λ k. raise read_only;
  range = λ lo hi. raise read_only;
  iter = λ s. (ok (items s.0), s);
  transaction = λ s. (ok s, s);
  commit = λ t. raise read_only;
  rollback = λ t. pure tt;
  flush = pure tt;
}

pub lookup-put_rows :
    (l : List (Bytes × Bytes)) (k v q : Bytes)
    → lookup bytes_dec q (without bytes_dec k l ++ (k, v) ∷ [])
      ≡ ite (bytes_dec k q) (some v) (lookup bytes_dec q l)
lookup-put_rows l k v q = elim (bytes_dec k q) [
  | yes same ↦ rw (if_pos (bytes_dec k q) same) (rw (← same) (lookup-snoc_self bytes_dec k v l))
  | no ne ↦ rw (if_neg (bytes_dec k q) ne) (
      lookup-snoc_ne bytes_dec k q v (without bytes_dec k l) ne
      ∙ lookup-without_ne bytes_dec k q l ne)
]

abbrev pub rows-Holds : Holds rows
rows-Holds = record {
  entries = λ s. s.0;
  distinct = λ s. s.1;
  get_result = λ s k. refl;
  iter_result = λ s. refl;
  put_result = λ s k v. refl;
  lookup-put = λ s k v q. lookup-put_rows s.0 k v q;
}

abbrev pub texts : Texts
texts = record { encrypt_text = λ e. "encryption"; store_text = λ e. "store" }

pub one_entry : Distinct bytes_dec ((cell, envelope) ∷ [])
unfolding lookup
one_entry = (refl, tt)

abbrev start : EncryptedKvEnvelope Rows (Unit {0})
start = record { inner = ((cell, envelope) ∷ [], one_entry); cipher = one_key; random = tt }

get-put_example :
    ((put rows tagging constant texts cell plaintext start).0 ≡ ok tt)
    × ((get rows tagging constant texts cell
          (put rows tagging constant texts cell plaintext start).1).0
        ≡ ok (some plaintext))
    × ((q : Bytes)
        → cell ≢ q
        → (get rows tagging constant texts q
            (put rows tagging constant texts cell plaintext start).1).0
          ≡ (get rows tagging constant texts q start).0)
get-put_example =
    get-put rows tagging constant texts rows-Holds tagging-IsAead constant-IsRng start cell
      plaintext one_key-IsCipher (omega arith)

get-rotate_kek_example :
    ((rotate_kek rows tagging constant texts second_kek start).0 ≡ ok (length start.inner.0))
    × ((q : Bytes)
        → (get rows tagging constant texts q
            (rotate_kek rows tagging constant texts second_kek start).1).0
          ≡ (get rows tagging constant texts q start).0)
    × (active_kek (rotate_kek rows tagging constant texts second_kek start).1.cipher.keyring
        ≡ ok second_kek)
    × All
        (λ kv.
          (env : Bytes) × (lookup bytes_dec kv.0
              (rotate_kek rows tagging constant texts second_kek start).1.inner.0
            ≡ some env)
          × (active_version
                (rotate_kek rows tagging constant texts second_kek start).1.cipher.keyring
              ≡ ok (from_le_bytes (take 4 env))))
        start.inner.0
get-rotate_kek_example =
    get-rotate_kek rows tagging constant texts rows-Holds tagging-IsAead constant-IsRng start
      second_kek one_key-IsCipher refl (omega arith) ((plaintext, is_decrypted), tt)
