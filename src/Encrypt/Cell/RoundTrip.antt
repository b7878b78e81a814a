-- ===== src/Encrypt/Cell/RoundTrip.antt =====
-- `encrypt_cell` and `decrypt_cell` against the generic helpers, and their round trip.
use oxistore.Common.{
  ℕ, ◌+◌, ◌≤◌, ◌≡◌, refl, ◌∙◌, ap, length, take, drop, ok, arith, Result-cases, inl, inr, ltb,
  Bool-cases, ◌==◌, true, false, length-take, length-drop,
}
use oxistore.Common.Bytes.{Bytes}
use oxistore.Encrypt.Errors.{Rng}
use oxistore.Encrypt.Keys.{KeyProvider, key32}
use oxistore.Encrypt.Envelope as Envelope
use oxistore.Encrypt.Envelope.RoundTrip.{IsRng}
use oxistore.Encrypt.Aead.{
  x_cha_cha20_poly1305_aead, seal_with, open_with, encrypt_with_aead, decrypt_with_aead,
}
use oxistore.Encrypt.Aead.Sealing.{IsCipherFor, x_cha_cha20-IsSealing, decrypt-encrypt_with_aead}
use oxistore.Encrypt.Cell.{CellId, to_aad_bytes, encrypt_cell, decrypt_cell}

pub key32-length :
    {K : Type 0} (provider : KeyProvider K) (k : K) (key : Bytes)
    → key32 provider k ≡ ok key
    → length key ≡ 32
unfolding key32
key32-length provider k key e = elim (Result-cases (provider.get_key k)) [
  | inl (raw, got) ↦ ground (arith, got)
  | inr (x, got) ↦ ground (arith, got)
]

module _ {K R : Type 0} (provider : KeyProvider K) (cipher : Envelope.Aead) (rng : Rng R)
    (random : IsRng rng) where
  encrypt_cell-exact :
      (k : K) (key nonce : Bytes) (id : CellId) (pt : Bytes) (r r1 r2 : R)
      → key32 provider k ≡ ok key
      → rng.new_rng r ≡ (ok tt, r1)
      → rng.fill 24 r1 ≡ (ok nonce, r2)
      → length nonce ≡ 24
      → encrypt_cell provider cipher rng k id pt r
        ≡ encrypt_with_aead (x_cha_cha20_poly1305_aead cipher) rng key (to_aad_bytes id) pt r
  unfolding encrypt_cell encrypt_with_aead x_cha_cha20_poly1305_aead seal_with
  encrypt_cell-exact k key nonce id pt r r1 r2 e0 e1 e2 long = rw (e0, e1, e2, long) refl

  encrypt_cell-encrypt_with_aead :
      (k : K) (key : Bytes) (id : CellId) (pt : Bytes) (r : R)
      → key32 provider k ≡ ok key
      → encrypt_cell provider cipher rng k id pt r
        ≡ encrypt_with_aead (x_cha_cha20_poly1305_aead cipher) rng key (to_aad_bytes id) pt r
  encrypt_cell-encrypt_with_aead k key id pt r e =
      let r1 : R = (rng.new_rng r).1 in
      let (nonce, filled, long) = random.fills 24 r1 in
      encrypt_cell-exact k key nonce id pt r r1 (rng.fill 24 r1).1 e
        (ap (λ x. (x, r1)) (random.starts r)) (ap (λ x. (x, (rng.fill 24 r1).1)) filled) long

  decrypt_cell-decrypt_with_aead :
      (k : K) (key : Bytes) (id : CellId) (wire : Bytes)
      → key32 provider k ≡ ok key
      → decrypt_cell provider cipher k id wire
        ≡ decrypt_with_aead (x_cha_cha20_poly1305_aead cipher) key (to_aad_bytes id) wire
  unfolding decrypt_cell decrypt_with_aead x_cha_cha20_poly1305_aead open_with
  decrypt_cell-decrypt_with_aead k key id wire e = elim (Bool-cases (ltb (length wire) 40)) [
    | inl short ↦ rw (short) refl
    | inr enough ↦
        let tagged : ltb (length (drop 24 wire)) 16 ≡ false = ground (arith, length-drop 24 wire) in
        let whole : (length (take 24 wire) == 24) ≡ true = ground (arith, length-take 24 wire) in
        rw (enough, e, tagged, whole) refl
  ]

  -- With a cipher and a random generator that work as documented, and a provider that gives a key of
  -- 32 bytes: `encrypt_cell` of a plaintext that the cipher takes succeeds and gives 40 bytes more,
  -- which `decrypt_cell` for the same cell turns back into the plaintext.
  pub decrypt_cell-encrypt_cell :
      (max_plaintext : ℕ) (is_cipher : IsCipherFor 24 max_plaintext cipher) (k : K) (key : Bytes)
      (id : CellId) (pt : Bytes) (r : R)
      → key32 provider k ≡ ok key
      → length pt ≤ max_plaintext
      → (wire : Bytes) × (r' : R) × (encrypt_cell provider cipher rng k id pt r ≡ (ok wire, r'))
        × (length wire ≡ length pt + 40)
        × (decrypt_cell provider cipher k id wire ≡ ok pt)
  unfolding x_cha_cha20_poly1305_aead
  decrypt_cell-encrypt_cell max_plaintext is_cipher k key id pt r e fits =
      let (wire, r', runs, long, opens) =
        decrypt-encrypt_with_aead max_plaintext (x_cha_cha20_poly1305_aead cipher) rng
          (x_cha_cha20-IsSealing max_plaintext cipher is_cipher) random key (to_aad_bytes id) pt r
          (key32-length provider k key e) fits in
      (
        wire,
        r',
        encrypt_cell-encrypt_with_aead k key id pt r e ∙ runs,
        omega arith,
        decrypt_cell-decrypt_with_aead k key id wire e ∙ opens,
      )
