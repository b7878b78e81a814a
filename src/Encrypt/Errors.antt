-- ===== src/Encrypt/Errors.antt =====
-- `EncryptError` of crates/oxistore-encrypt/src/error.rs, and actions that draw from the random
-- generator of the operating system.
use Prim.Native.String.{String}
use oxistore.Common.{ℕ, Result, ok, err}
use oxistore.Common.Bytes.{Bytes}

pub data EncryptError : Type 0 where
  ciphertext_too_short : ℕ → ℕ → EncryptError
  authentication_failed rng_failed lock_poisoned keyring_empty : EncryptError
  missing_kek_version : ℕ → EncryptError
  encryption_failed : String → EncryptError
  invalid_key_length : ℕ → EncryptError
  keyring_unavailable store key_derivation_failed key_provider_failed : String → EncryptError
  key_rotation : ℕ → ℕ → String → EncryptError

-- `R` is the state of the generator.
abbrev pub Draw : Type 0 → Type 0 → Type 0
Draw R A = R → Result EncryptError A × R

module _ {R A B : Type 0} where
  abbrev pub continue : Result EncryptError A → (A → Draw R B) → Draw R B
  continue (ok a) f r = f a r
  continue (err e) f r = (err e, r)

  infixl 5 ◌>>=◌ ◌>>◌
  abbrev pub ◌>>=◌ : Draw R A → (A → Draw R B) → Draw R B
  ◌>>=◌ m f r = continue (m r).0 f (m r).1

  abbrev pub ◌>>◌ : Draw R A → Draw R B → Draw R B
  m >> n = m >>= λ _. n

abbrev pub lift : {R A : Type 0} → Result EncryptError A → Draw R A
lift x r = (x, r)

-- `oxicrypto::new_rng` and `fill`
pub record Rng (R : Type 0) : Type 0 where
  pub new_rng : R → Result String (Unit {0}) × R
  pub fill : ℕ → R → Result String Bytes × R
