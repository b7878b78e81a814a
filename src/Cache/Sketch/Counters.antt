-- ===== src/Cache/Sketch/Counters.antt =====
-- The counters of a sketch that grow, and how one row is incremented.
use oxistore.Common.{
  ℕ, zero, suc, ◌+◌, ◌*◌, ◌/◌, ◌%◌, ◌≤◌, ◌<◌, ◌≡◌, ◌≢◌, refl, sym, ◌∙◌, ap, min, Option, none, some,
  List, [], ◌∷◌, length, get_or, get_elem?, length-set, ltb, ◌==◌, if◌then◌else◌, arith, ℕ_discrete,
  Bool-cases, inl, inr,
}
use oxistore.Common as Common
use oxistore.Common.Bytes.{Bytes}
use oxistore.Cache.Sketch.{
  byte_index, nibble_of, with_nibble, nibble_get, nibble_set, increment_row,
}

pub get_elem?-get_or : (l : Bytes) (i : ℕ) → i < length l → get_elem? l i ≡ some (get_or l i 0)
get_elem?-get_or [] i h = absurd (omega arith)
get_elem?-get_or (x ∷ l) zero h = refl
get_elem?-get_or (x ∷ l) (suc i) h = get_elem?-get_or l i (omega arith)

pub get_or-set_self : (l : Bytes) (i v : ℕ) → i < length l → get_or (Common.set l i v) i 0 ≡ v
get_or-set_self [] i v h = absurd (omega arith)
get_or-set_self (x ∷ l) zero v h = refl
get_or-set_self (x ∷ l) (suc i) v h = get_or-set_self l i v (omega arith)

pub get_or-set_ne : (l : Bytes) (i j v : ℕ) → i ≢ j → get_or (Common.set l i v) j 0 ≡ get_or l j 0
get_or-set_ne [] i j v h = refl
get_or-set_ne (x ∷ l) zero zero v h = absurd (h refl)
get_or-set_ne (x ∷ l) zero (suc j) v h = refl
get_or-set_ne (x ∷ l) (suc i) zero v h = refl
get_or-set_ne (x ∷ l) (suc i) (suc j) v h = get_or-set_ne l i j v (λ e. h (ap suc e))

-- No nibble is smaller.
pub record Grows (cs cs' : Bytes) : Type 0 where
  pub as_long : length cs' ≡ length cs
  pub low : (i : ℕ) → get_or cs i 0 % 16 ≤ get_or cs' i 0 % 16
  pub high : (i : ℕ) → get_or cs i 0 / 16 % 16 ≤ get_or cs' i 0 / 16 % 16

pub Grows-refl : (cs : Bytes) → Grows cs cs
Grows-refl cs = record { as_long = refl; low = λ i. omega arith; high = λ i. omega arith }

pub Grows-trans : (a b c : Bytes) → Grows a b → Grows b c → Grows a c
Grows-trans a b c g h = record {
  as_long = h.as_long ∙ g.as_long;
  low = λ i. omega (arith, g.low i, h.low i);
  high = λ i. omega (arith, g.high i, h.high i);
}

-- The counter in a row and a column.
abbrev pub counter : Bytes → ℕ → ℕ → ℕ → ℕ
counter cs row col half_w = nibble_of col (get_or cs (byte_index row col half_w) 0)

pub counter-Grows :
    (cs cs' : Bytes) (row col half_w : ℕ)
    → Grows cs cs'
    → counter cs row col half_w ≤ counter cs' row col half_w
counter-Grows cs cs' row col half_w g =
    ground (arith, g.low (byte_index row col half_w), g.high (byte_index row col half_w))

pub nibble_get-counter :
    (cs : Bytes) (row col half_w : ℕ)
    → byte_index row col half_w < length cs
    → nibble_get cs row col half_w ≡ some (counter cs row col half_w)
unfolding nibble_get
nibble_get-counter cs row col half_w h =
    rw (nibble_get, get_elem?-get_or cs (byte_index row col half_w) h) refl

nibble_set-exact :
    (cs : Bytes) (row col half_w val : ℕ)
    → byte_index row col half_w < length cs
    → nibble_set cs row col half_w val
      ≡ some (
          Common.set cs
            (byte_index row col half_w)
            (with_nibble col val (get_or cs (byte_index row col half_w) 0)))
unfolding nibble_set
nibble_set-exact cs row col half_w val h =
    rw (nibble_set, get_elem?-get_or cs (byte_index row col half_w) h) refl

set-Grows :
    (cs : Bytes) (i b : ℕ)
    → i < length cs
    → get_or cs i 0 % 16 ≤ b % 16
    → get_or cs i 0 / 16 % 16 ≤ b / 16 % 16
    → Grows cs (Common.set cs i b)
set-Grows cs i b h low high = record {
  as_long = length-set cs i b;
  low = λ j. elim (ℕ_discrete i j) [
    | yes same ↦ rw (← same, get_or-set_self cs i b h) low
    | no ne ↦ omega (arith, get_or-set_ne cs i j b ne)
  ];
  high = λ j. elim (ℕ_discrete i j) [
    | yes same ↦ rw (← same, get_or-set_self cs i b h) high
    | no ne ↦ omega (arith, get_or-set_ne cs i j b ne)
  ];
}

-- An incremented row: every counter grows, and its own by one up to 15.
pub increment_row-Grows :
    (col half_w row : ℕ) (cs : Bytes)
    → byte_index row col half_w < length cs
    → (cs' : Bytes) × (increment_row col half_w row cs ≡ some cs')
      × Grows cs cs'
      × (min 15 (counter cs row col half_w + 1) ≤ counter cs' row col half_w)
unfolding increment_row
increment_row-Grows col half_w row cs h =
    let i : ℕ = byte_index row col half_w in
    let old : ℕ = get_or cs i 0 in
    let cur : ℕ = counter cs row col half_w in
    elim (Bool-cases (ltb cur 15)) [
      | inl below ↦
          let b : ℕ = with_nibble col (cur + 1) old in
          (
            Common.set cs i b,
            rw (increment_row, nibble_get-counter cs row col half_w h, below)
                (nibble_set-exact cs row col half_w (cur + 1) h),
            set-Grows cs i b h (ground arith) (ground arith),
            rw (get_or-set_self cs i b h) (ground arith),
          )
      | inr full ↦ (
        cs,
        rw (increment_row, nibble_get-counter cs row col half_w h, full) refl,
        Grows-refl cs,
        ground arith,
      )
    ]
