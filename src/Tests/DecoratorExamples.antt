-- ===== src/Tests/DecoratorExamples.antt =====
-- Cells, and an encrypting store over lists of entries, with the cipher of the envelope examples.
use oxistore.Common.{
  ℕ, ◌+◌, ◌≡◌, refl, sym, ◌∙◌, ap, none, some, List, [], ◌∷◌, ◌++◌, map, length, replicate, ok,
  arith, ite, if_pos, if_neg,
}
use oxistore.Common.Assoc.{lookup, Distinct}
use oxistore.Common.Bytes.{Bytes, bytes_dec}
use oxistore.Core.Store.{batch_write}
use oxistore.Core.Contract.{Stores, items}
use oxistore.Core.Calls.{Call, read, write, remove, flush, Values, run, replay}
use oxistore.Core.Transactions.{written}
use oxistore.Encrypt.Keys.{StaticKey, static_key, key32}
use oxistore.Encrypt.Aead.{
  x_cha_cha20_poly1305, x_cha_cha20_poly1305_aead, aead_of, open_with, decrypt_with_aead,
}
use oxistore.Encrypt.Aead.Sealing.{IsCipherFor, x_cha_cha20-IsSealing}
use oxistore.Encrypt.Cell.{CellId, encrypt_cell, decrypt_cell}
use oxistore.Encrypt.Cell.Identity.{IsCellId, to_aad_bytes-injective}
use oxistore.Encrypt.Cell.RoundTrip.{decrypt_cell-encrypt_cell}
use oxistore.Encrypt.Decorator.{Parts, EncryptedKv, read_value, get, iter, decrypt_value}
use oxistore.Encrypt.Decorator.Store.{as_store}
use oxistore.Encrypt.Decorator.Refinement.{Works, step, run-EncryptedKv_refines}
use oxistore.Encrypt.Decorator.Commit.{get-batch_write}
use oxistore.Encrypt.Decorator.Listing.{iter-get}
use oxistore.Tests.ListStore.{Entries, list_store, list_store-Transacts, lookup-without, lookup-put}
use oxistore.Tests.EnvelopeExamples.{
  tagging, length-tagged, tagging-opens, constant, constant-IsRng, plaintext,
}
use oxistore.Tests.EnvelopeStoreExamples.{Rows, rows, rows-Holds, texts}

abbrev tagging-IsCipherFor : IsCipherFor 24 1000 tagging
tagging-IsCipherFor = record {
  seal_opens = λ key nonce aad plaintext h1 h2 h3.
      (plaintext ++ replicate 16 0, refl, length-tagged plaintext, tagging-opens plaintext);
}

abbrev key : Bytes
key = replicate 32 5

abbrev keys : StaticKey
keys = record { bytes = key }

key_result : key32 static_key keys ≡ ok key
unfolding key32 static_key
key_result = refl

abbrev id : CellId
id = record { table_id = 1; row_id = 2; col_id = 3 }

abbrev id' : CellId
id' = record { table_id = 1; row_id = 1 + 1; col_id = 3 }

abbrev id-IsCellId : IsCellId id
id-IsCellId = record { table_fits = omega arith; row_fits = omega arith; col_fits = omega arith }

to_aad_bytes-injective_example : id ≡ id'
to_aad_bytes-injective_example = to_aad_bytes-injective id id' id-IsCellId id-IsCellId refl

decrypt_cell-encrypt_cell_example :
    (wire : Bytes) × (r' : Unit {0}) × (encrypt_cell static_key tagging constant keys id plaintext
        tt
      ≡ (ok wire, r'))
    × (length wire ≡ length plaintext + 40)
    × (decrypt_cell static_key tagging keys id wire ≡ ok plaintext)
decrypt_cell-encrypt_cell_example =
    decrypt_cell-encrypt_cell static_key tagging constant constant-IsRng 1000 tagging-IsCipherFor
      keys key id plaintext tt key_result (omega arith)

abbrev parts : Parts StaticKey (Unit {0})
parts = record {
  provider = static_key;
  key_provider = keys;
  aead = x_cha_cha20_poly1305_aead tagging;
  ciphers = record { x_cha_cha20 = tagging; aes_gcm_siv = tagging };
  blake3 = λ bs. bs;
  rng = constant;
  texts = texts;
}

abbrev works : Works 1000 parts
works = record {
  key = key;
  key_result = key_result;
  seals = x_cha_cha20-IsSealing 1000 tagging tagging-IsCipherFor;
  random = constant-IsRng;
}

abbrev list_store-Stores : Stores list_store
list_store-Stores = record {
  value = λ l k. lookup bytes_dec k l;
  get_result = λ l k. refl;
  value-get = λ l k q. refl;
  put_result = λ l k v. refl;
  value-put = lookup-put;
  delete_result = λ l k. refl;
  value-delete = λ l k q. lookup-without k q l;
  flush_result = λ l. refl;
  value-flush = λ l q. refl;
}

abbrev a : Bytes
a = 97 ∷ []

abbrev b : Bytes
b = 98 ∷ []

abbrev calls : List (ℕ × Call)
calls =
    (1, write a b) ∷ (2, read a) ∷ (3, write a a) ∷ (4, remove b) ∷ (4, flush) ∷ (5, read a) ∷ []

abbrev empty : EncryptedKv Entries (Unit {0})
empty = record { inner = []; random = tt }

abbrev nothing : Values
nothing q = none

nothing_read : (q : Bytes) → read_value parts q (lookup bytes_dec q []) ≡ ok none
unfolding read_value lookup
nothing_read q = refl

run-EncryptedKv_refines_example : (run (step list_store parts) calls empty).0 ≡ replay calls nothing
run-EncryptedKv_refines_example =
    run-EncryptedKv_refines list_store parts 1000 list_store-Stores works calls 0 empty nothing
      (omega arith) (omega arith, (tt, (omega arith, (tt, (tt, (tt, tt))))))
      (record { readable = nothing_read })

nothing_got : (q : Bytes) → (get list_store parts q empty).0 ≡ ok none
unfolding get read_value lookup
nothing_got q = refl

abbrev pairs : List (Bytes × Bytes)
pairs = (a, b) ∷ (b, a) ∷ (a, a) ∷ []

made : parts.aead ≡ aead_of parts.ciphers x_cha_cha20_poly1305
unfolding aead_of
made = refl

get-batch_write_example :
    ((batch_write (as_store list_store parts) pairs empty).0 ≡ ok tt)
    × ((q : Bytes)
        → (get list_store parts q (batch_write (as_store list_store parts) pairs empty).1).0
          ≡ ok (written pairs q none))
get-batch_write_example =
    get-batch_write list_store parts 1000 list_store-Stores list_store-Transacts (λ s q. refl) works
      x_cha_cha20_poly1305 made pairs empty nothing (omega arith, (omega arith, (omega arith, tt)))
      nothing_got

abbrev sealed : Bytes
sealed = replicate 24 7 ++ (plaintext ++ replicate 16 0)

one_sealed : Distinct bytes_dec ((a, sealed) ∷ [])
unfolding lookup
one_sealed = (refl, tt)

abbrev single : EncryptedKv Rows (Unit {0})
single = record { inner = ((a, sealed) ∷ [], one_sealed); random = tt }

abbrev single_value : Values
single_value q = ite (bytes_dec a q) (some plaintext) none

sealed_opens : (q : Bytes) → read_value parts q (some sealed) ≡ ok (some plaintext)
unfolding read_value decrypt_value key32 static_key decrypt_with_aead x_cha_cha20_poly1305_aead
    open_with
sealed_opens q = refl

nothing_reads : (q : Bytes) → read_value parts q none ≡ ok none
unfolding read_value
nothing_reads q = refl

single_got : (q : Bytes) → (get rows parts q single).0 ≡ ok (single_value q)
unfolding get lookup
single_got q = elim (bytes_dec a q) [
  | yes p ↦
      ap (read_value parts q) (if_pos (bytes_dec a q) p _ _)
      ∙ sealed_opens q
      ∙ ap ok (sym (if_pos (bytes_dec a q) p _ _))
  | no ne ↦
      ap (read_value parts q) (if_neg (bytes_dec a q) ne _ _)
      ∙ nothing_reads q
      ∙ ap ok (sym (if_neg (bytes_dec a q) ne _ _))
]

iter-get_example :
    (ps : List (Bytes × Bytes)) × ((iter rows parts single).0 ≡ ok (items ps))
    × (map (λ p. p.0) ps ≡ a ∷ [])
    × ((q : Bytes) → lookup bytes_dec q ps ≡ single_value q)
iter-get_example = iter-get rows parts 1000 rows-Holds works single single_value single_got
