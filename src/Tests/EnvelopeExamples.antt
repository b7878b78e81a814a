-- ===== src/Tests/EnvelopeExamples.antt =====
-- A cipher that only adds a tag, a random generator that always gives the same byte, and envelopes
-- made with them.
use oxistore.Common.{
  ℕ, zero, suc, ◌+◌, ◌-◌, ◌≡◌, refl, ap, true, false, some, [], ◌∷◌, ◌++◌, length, take, drop,
  replicate, leb, if◌then◌else◌, ok, err, arith, take-append, length-append, length-take,
}
use oxistore.Common.Bytes.{Bytes}
use oxistore.Encrypt.Errors.{Rng}
use oxistore.Encrypt.Keyring.{Keyring, find, active_version, active_kek, kek_for_version, rotate}
use oxistore.Encrypt.Keyring.Versions.{IsKeyring, rotate-adds}
use oxistore.Encrypt.Envelope.{
  Aead, EnvelopeCipher, read, decrypt, to_le_bytes, from_le_bytes, slice, to_array, add_kek_version,
}
use oxistore.Encrypt.Envelope.Seal.{encrypt, rewrap_envelope}
use oxistore.Encrypt.Envelope.RoundTrip.{IsAead, IsRng, IsCipher, decrypt-encrypt}
use oxistore.Encrypt.Envelope.Rotation.{decrypt-add_kek_version, decrypt-rewrap_envelope}

abbrev tag : Bytes
tag = replicate 16 0

abbrev pub tagging : Aead
tagging = record {
  seal = λ key nonce aad plaintext. ok (plaintext ++ tag);
  open_ = λ key nonce aad ct. if leb 16 (length ct) then ok (take (length ct - 16) ct) else err "";
}

pub length-tagged : (plaintext : Bytes) → length (plaintext ++ tag) ≡ length plaintext + 16
length-tagged plaintext = length-append plaintext tag

pub tagging-opens : (plaintext : Bytes) → tagging.open_ [] [] [] (plaintext ++ tag) ≡ ok plaintext
tagging-opens plaintext =
    let long : length plaintext ≡ length (plaintext ++ tag) - 16 =
      omega (arith, length-tagged plaintext) in
    let full : leb 16 (length (plaintext ++ tag)) ≡ true =
      ground (arith, length-tagged plaintext) in
    rw (full, take-append plaintext tag (length (plaintext ++ tag) - 16) long) refl

pub tagging-length :
    (ct plaintext : Bytes)
    → tagging.open_ [] [] [] ct ≡ ok plaintext
    → length ct ≡ length plaintext + 16
tagging-length ct plaintext e = ground (arith, length-take (length ct - 16) ct)

abbrev pub tagging-IsAead : IsAead tagging
tagging-IsAead = record {
  max_plaintext = 1000;
  dek_fits = omega arith;
  seal_opens = λ key nonce aad plaintext h1 h2 h3.
      (plaintext ++ tag, refl, length-tagged plaintext, tagging-opens plaintext);
  open_length = λ key nonce aad ct plaintext e. tagging-length ct plaintext e;
}

abbrev pub constant : Rng (Unit {0})
constant = record { new_rng = λ r. (ok tt, r); fill = λ n r. (ok (replicate n 7), r) }

length-replicate : (n : ℕ) → length {A = ℕ} (replicate n 7) ≡ n
length-replicate zero = refl
length-replicate (suc n) = ap suc (length-replicate n)

pub constant-IsRng : IsRng constant
constant-IsRng = record {
  starts = λ r. refl;
  fills = λ n r. (replicate n 7, refl, length-replicate n);
}

abbrev first_kek : Bytes
first_kek = replicate 32 1

abbrev ring : Keyring
ring = record { versions = (record { version = 1; kek = first_kek }) ∷ [] }

abbrev pub one_key : EnvelopeCipher
one_key = record { keyring = ring; poisoned = false }

pub one_key-IsCipher : IsCipher one_key
one_key-IsCipher = record {
  healthy = refl;
  ring = record { ascends = (refl, refl, tt); nonempty = omega arith; bounded = omega arith };
}

abbrev pub plaintext : Bytes
plaintext = 104 ∷ 105 ∷ []

abbrev pub cell : Bytes
cell = 107 ∷ []

decrypt-encrypt_example :
    (env : Bytes) × (r' : Unit {0}) × (encrypt tagging constant one_key plaintext cell tt
      ≡ (ok env, r'))
    × (length env ≡ length plaintext + 116)
    × (decrypt tagging one_key env cell ≡ ok plaintext)
decrypt-encrypt_example =
    decrypt-encrypt tagging constant tagging-IsAead constant-IsRng one_key plaintext cell tt
      one_key-IsCipher (omega arith)

abbrev pub envelope : Bytes
envelope =
    (1 ∷ 0 ∷ 0 ∷ 0 ∷ [])
    ++ (replicate 24 7 ++ ((replicate 32 7 ++ tag) ++ (replicate 24 7 ++ (plaintext ++ tag))))

pub is_decrypted : decrypt tagging one_key envelope cell ≡ ok plaintext
unfolding decrypt to_array read from_le_bytes kek_for_version find
is_decrypted = refl

abbrev pub second_kek : Bytes
second_kek = replicate 32 2

decrypt-add_kek_version_example :
    (decrypt tagging (add_kek_version second_kek one_key).1 envelope cell ≡ ok plaintext)
    × (active_kek (add_kek_version second_kek one_key).1.keyring ≡ ok second_kek)
    × IsCipher (add_kek_version second_kek one_key).1
    × ((env' : Bytes) × (r' : Unit {0}) × (dek : Bytes) × (encrypt tagging constant
            (add_kek_version second_kek one_key).1
            plaintext
            cell
            tt
          ≡ (ok env', r'))
        × (take 4 env' ≡ to_le_bytes (length one_key.keyring.versions + 1))
        × (tagging.open_ second_kek
              (slice 4 28 env')
              (to_le_bytes (length one_key.keyring.versions + 1))
              (slice 28 76 env')
            ≡ ok dek)
        × (tagging.open_ dek (take 24 (drop 76 env')) cell (drop 24 (drop 76 env')) ≡ ok plaintext))
decrypt-add_kek_version_example =
    decrypt-add_kek_version tagging constant tagging-IsAead constant-IsRng one_key second_kek
      envelope cell plaintext plaintext cell tt one_key-IsCipher refl (omega arith) is_decrypted
      (omega arith)

decrypt-rewrap_envelope_example :
    (env' : Bytes) × (r' : Unit {0}) × (rewrap_envelope tagging constant one_key envelope tt
      ≡ (ok env', r'))
    × (active_version one_key.keyring ≡ ok (from_le_bytes (take 4 env')))
    × (drop 76 env' ≡ drop 76 envelope)
    × (length env' ≡ length envelope)
    × (decrypt tagging one_key env' cell ≡ ok plaintext)
decrypt-rewrap_envelope_example =
    decrypt-rewrap_envelope tagging constant tagging-IsAead constant-IsRng one_key envelope cell
      plaintext tt one_key-IsCipher is_decrypted

rotate-adds_example :
    ((rotate second_kek ring).0 ≡ ok (length ring.versions + 1))
    × (active_version (rotate second_kek ring).1 ≡ ok (length ring.versions + 1))
    × (active_kek (rotate second_kek ring).1 ≡ ok second_kek)
    × ((n : ℕ) (kek : Bytes)
        → kek_for_version n ring ≡ some kek
        → kek_for_version n (rotate second_kek ring).1 ≡ some kek)
    × IsKeyring (rotate second_kek ring).1
rotate-adds_example = rotate-adds ring second_kek one_key-IsCipher.ring refl (omega arith)
