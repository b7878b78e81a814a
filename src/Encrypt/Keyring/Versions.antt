-- ===== src/Encrypt/Keyring/Versions.antt =====
-- The versions of a keyring, and what a rotation keeps.
use oxistore.Common.{
  ℕ, ◌+◌, ◌%◌, ◌^◌, ◌<◌, ◌≤◌, ◌≡◌, refl, some, List, [], ◌∷◌, ◌++◌, ◌-◌, ok, arith, length,
  Option-cases, inl, inr,
}
use oxistore.Common.Bytes.{Bytes}
use oxistore.Encrypt.Keyring.{
  KeyVersion, Keyring, last, find, new, active_version, active_kek, kek_for_version, rotate,
}

-- The versions ascend by one from the first, and the keys have 32 bytes.
abbrev pub Ascends : ℕ → List KeyVersion → Type 0
Ascends v [] = Unit
Ascends v (kv ∷ kvs) = (kv.version ≡ v) × (length kv.kek ≡ 32) × Ascends (v + 1) kvs

-- From 1, at least one, and all below `u32::MAX`.
pub record IsKeyring (ring : Keyring) : Type 0 where
  pub ascends : Ascends 1 ring.versions
  pub nonempty : 0 < length ring.versions
  pub bounded : length ring.versions < 2 ^ 32 - 1

last-Ascends :
    (v : ℕ) (kvs : List KeyVersion)
    → Ascends v kvs
    → 0 < length kvs
    → (kv : KeyVersion) × (last kvs ≡ some kv)
      × (kv.version + 1 ≡ v + length kvs)
      × (length kv.kek ≡ 32)
unfolding last
last-Ascends v [] a h = absurd (omega arith)
last-Ascends v (kv ∷ []) a h = (kv, refl, omega arith, a.1)
last-Ascends v (kv ∷ kv' ∷ kvs) a h =
    let (w, is_w, e, k) = last-Ascends (v + 1) (kv' ∷ kvs) a.2 (omega arith) in
    (w, ground arith, omega arith, k)

Ascends-snoc :
    (v : ℕ) (kvs : List KeyVersion) (kv : KeyVersion)
    → Ascends v kvs
    → kv.version ≡ v + length kvs
    → length kv.kek ≡ 32
    → Ascends v (kvs ++ kv ∷ [])
Ascends-snoc v [] kv a e k = (omega arith, k, tt)
Ascends-snoc v (w ∷ kvs) kv a e k = (a.0, a.1, Ascends-snoc (v + 1) kvs kv a.2 (omega arith) k)

find-snoc :
    (n : ℕ) (kvs : List KeyVersion) (kv w : KeyVersion)
    → find n kvs ≡ some w
    → find n (kvs ++ kv ∷ []) ≡ some w
unfolding find
find-snoc n [] kv w h = absurd (ground arith)
find-snoc n (x ∷ kvs) kv w h = ground (arith, find-snoc n kvs kv w)

-- An earlier version is smaller, so the search passes it over.
find-last :
    (v : ℕ) (kvs : List KeyVersion) (kv : KeyVersion)
    → Ascends v kvs
    → last kvs ≡ some kv
    → (find kv.version kvs ≡ some kv)
      × (v ≤ kv.version)
      × (length kv.kek ≡ 32)
      × (kv.version < v + length kvs)
unfolding find last
find-last v [] kv a h = absurd (ground arith)
find-last v (x ∷ []) kv a h =
    let same : x ≡ kv = ground arith in rw (← same) (ground arith, omega arith, a.1, omega arith)
find-last v (x ∷ y ∷ kvs) kv a h =
    let (found, above, k, below) = find-last (v + 1) (y ∷ kvs) kv a.2 (ground arith) in
    (ground arith, omega arith, k, omega arith)

last-snoc : {A : Type 0} (l : List A) (x : A) → last (l ++ x ∷ []) ≡ some x
unfolding last
last-snoc [] x = refl
last-snoc (y ∷ l) x = ground (arith, last-snoc l x)

length-snoc : {A : Type 0} (l : List A) (x : A) → length (l ++ x ∷ []) ≡ length l + 1
length-snoc [] x = omega arith
length-snoc (y ∷ l) x = omega (arith, length-snoc l x)

-- The active key, and its version, which is the number of keys.
pub active-IsKeyring :
    (ring : Keyring)
    → IsKeyring ring
    → (kek : Bytes) × (active_version ring ≡ ok (length ring.versions))
      × (active_kek ring ≡ ok kek)
      × (kek_for_version (length ring.versions) ring ≡ some kek)
      × (length kek ≡ 32)
unfolding active_version active_kek kek_for_version
active-IsKeyring ring h =
    let (kv, is_kv, e, k) = last-Ascends 1 ring.versions h.ascends h.nonempty in
    let (found, above, long, below) = find-last 1 ring.versions kv h.ascends is_kv in
    let same : kv.version ≡ length ring.versions = omega arith in
    let found' : find (length ring.versions) ring.versions ≡ some kv = rw (← same) found in
    (kv.kek, ground arith, ground arith, ground arith, k)

pub new-IsKeyring : (kek : Bytes) → length kek ≡ 32 → IsKeyring (new kek)
unfolding new
new-IsKeyring kek h = record {
  ascends = (refl, h, tt);
  nonempty = omega arith;
  bounded = omega arith;
}

rotate-exact :
    (ring : Keyring) (new_kek : Bytes)
    → IsKeyring ring
    → rotate new_kek ring ≡ (
      ok (length ring.versions + 1),
      record {
        versions =
            ring.versions ++ (record { version = length ring.versions + 1; kek = new_kek }) ∷ [];
      },
    )
unfolding rotate
rotate-exact ring new_kek h =
    let (kek, is_version, is_kek, is_found, is_long) = active-IsKeyring ring h in
    let small : (length ring.versions + 1) % 2 ^ 32 ≡ length ring.versions + 1 =
      omega (arith, h.bounded) in
    rw (is_version, small) refl

snoc-IsKeyring :
    (ring : Keyring) (new_kek : Bytes)
    → IsKeyring ring
    → length new_kek ≡ 32
    → length ring.versions < 2 ^ 32 - 2
    → IsKeyring (record {
      versions =
          ring.versions ++ (record { version = length ring.versions + 1; kek = new_kek }) ∷ [];
    })
snoc-IsKeyring ring new_kek h k room =
    let kv : KeyVersion = record { version = length ring.versions + 1; kek = new_kek } in
    let long : length (ring.versions ++ kv ∷ []) ≡ length ring.versions + 1 =
      length-snoc ring.versions kv in
    record {
      ascends = Ascends-snoc 1 ring.versions kv h.ascends (omega arith) k;
      nonempty = omega arith;
      bounded = omega arith;
    }

-- `rotate` with a key of 32 bytes on a keyring with fewer than `u32::MAX - 1` keys gives the next
-- version, which becomes the active one with the new key. Every version that the keyring had keeps
-- its key, and the versions still ascend by one.
pub rotate-adds :
    (ring : Keyring) (new_kek : Bytes)
    → IsKeyring ring
    → length new_kek ≡ 32
    → length ring.versions < 2 ^ 32 - 2
    → ((rotate new_kek ring).0 ≡ ok (length ring.versions + 1))
      × (active_version (rotate new_kek ring).1 ≡ ok (length ring.versions + 1))
      × (active_kek (rotate new_kek ring).1 ≡ ok new_kek)
      × ((n : ℕ) (kek : Bytes)
          → kek_for_version n ring ≡ some kek
          → kek_for_version n (rotate new_kek ring).1 ≡ some kek)
      × IsKeyring (rotate new_kek ring).1
unfolding active_version active_kek kek_for_version
rotate-adds ring new_kek h k room =
    let kv : KeyVersion = record { version = length ring.versions + 1; kek = new_kek } in
    rw (rotate-exact ring new_kek h) (
      refl,
      ground (arith, last-snoc ring.versions kv),
      ground (arith, last-snoc ring.versions kv),
      (λ n kek e. elim (Option-cases (find n ring.versions)) [
        | inl missing ↦ absurd (ground arith)
        | inr (w, is_w) ↦ ground (arith, find-snoc n ring.versions kv w is_w)
      ]),
      snoc-IsKeyring ring new_kek h k room,
    )
