-- ===== src/Cache/Sketch/Estimates.antt =====
-- The estimates of a `CountMinSketch` before and after an increment.
use oxistore.Common.{
  ℕ, ◌+◌, ◌-◌, ◌*◌, ◌^◌, ◌≤◌, ◌<◌, ◌≡◌, refl, ◌∙◌, min, some, List, [], ◌∷◌, length, ltb, leb,
  if◌then◌else◌, arith, All, false,
}
use oxistore.Common.Bytes.{Bytes}
use oxistore.Cache.Sketch.{
  CountMinSketch, byte_index, row_col, columns, rows, increment_rows, increment, estimate_rows,
  estimate,
}
use oxistore.Cache.Sketch.Counters.{
  Grows, Grows-refl, Grows-trans, counter, counter-Grows, nibble_get-counter, increment_row-Grows,
}

-- Four rows of `w` counters, two in a byte.
pub record IsSketch (s : CountMinSketch) : Type 0 where
  pub positive : 0 < s.half_w
  pub even : s.w ≡ 2 * s.half_w
  pub sized : length s.counters ≡ 4 * s.half_w

-- The counters of a key are in the table.
abbrev InTable : (ℕ → ℕ) → ℕ → Bytes → ℕ → Type 0
InTable cols half_w cs row = byte_index row (cols row) half_w < length cs

columns-fit : (s : CountMinSketch) (key : Bytes) (row : ℕ) → IsSketch s → columns key s row < s.w
unfolding columns row_col
columns-fit s key row h = omega (arith, h.positive, h.even)

rows-InTable :
    (s : CountMinSketch) (key cs : Bytes)
    → IsSketch s
    → length cs ≡ length s.counters
    → All (InTable (columns key s) s.half_w cs) rows
rows-InTable s key cs h same = (
  omega (arith, columns-fit s key 0 h, h.even, h.sized, h.positive),
  (
    omega (arith, columns-fit s key 1 h, h.even, h.sized, h.positive),
    (
      omega (arith, columns-fit s key 2 h, h.even, h.sized, h.positive),
      (omega (arith, columns-fit s key 3 h, h.even, h.sized, h.positive), tt),
    ),
  ),
)

still_in :
    (cols : ℕ → ℕ) (half_w : ℕ) (rs : List ℕ) (cs cs' : Bytes)
    → Grows cs cs'
    → All (InTable cols half_w cs) rs
    → All (InTable cols half_w cs') rs
still_in cols half_w [] cs cs' g h = tt
still_in cols half_w (row ∷ rs) cs cs' g h =
    (omega (arith, h.0, g.as_long), still_in cols half_w rs cs cs' g h.1)

each_counter :
    (cols : ℕ → ℕ) (half_w : ℕ) (rs : List ℕ) (cs cs' : Bytes)
    → Grows cs cs'
    → All (λ row. counter cs row (cols row) half_w ≤ counter cs' row (cols row) half_w) rs
each_counter cols half_w [] cs cs' g = tt
each_counter cols half_w (row ∷ rs) cs cs' g =
    (counter-Grows cs cs' row (cols row) half_w g, each_counter cols half_w rs cs cs' g)

weaken :
    (cols : ℕ → ℕ) (half_w : ℕ) (rs : List ℕ) (cs cs1 cs' : Bytes)
    → Grows cs cs1
    → All
        (λ row. min 15 (counter cs1 row (cols row) half_w + 1) ≤ counter cs' row (cols row) half_w)
        rs
    → All
        (λ row. min 15 (counter cs row (cols row) half_w + 1) ≤ counter cs' row (cols row) half_w)
        rs
weaken cols half_w [] cs cs1 cs' g h = tt
weaken cols half_w (row ∷ rs) cs cs1 cs' g h = (
  omega (arith, h.0, counter-Grows cs cs1 row (cols row) half_w g),
  weaken cols half_w rs cs cs1 cs' g h.1,
)

increment_rows-Grows :
    (cols : ℕ → ℕ) (half_w : ℕ) (rs : List ℕ) (cs : Bytes)
    → All (InTable cols half_w cs) rs
    → (cs' : Bytes) × (increment_rows cols half_w rs cs ≡ some cs')
      × Grows cs cs'
      × All
          (λ row. min 15 (counter cs row (cols row) half_w + 1) ≤ counter cs' row (cols row) half_w)
          rs
unfolding increment_rows
increment_rows-Grows cols half_w [] cs h = (cs, refl, Grows-refl cs, tt)
increment_rows-Grows cols half_w (row ∷ rs) cs h =
    let (cs1, runs, grows, own) = increment_row-Grows (cols row) half_w row cs h.0 in
    let (cs', rest, grows', others) =
      increment_rows-Grows cols half_w rs cs1 (still_in cols half_w rs cs cs1 grows h.1) in
    (
      cs',
      rw (increment_rows, runs) rest,
      Grows-trans cs cs1 cs' grows grows',
      (
        omega (arith, own, counter-Grows cs1 cs' row (cols row) half_w grows'),
        weaken cols half_w rs cs cs1 cs' grows others,
      ),
    )

-- A relation of numbers that the smaller ones keep.
abbrev KeptByMin : (ℕ → ℕ → Type 0) → Type 0
KeptByMin R =
    (a a' b b' : ℕ) → R a a' → R b b' → R (if ltb b a then b else a) (if ltb b' a' then b' else a')

estimate_rows-related :
    (R : ℕ → ℕ → Type 0) (cols : ℕ → ℕ) (half_w : ℕ) (rs : List ℕ) (cs cs' : Bytes) (m m' : ℕ)
    → KeptByMin R
    → All (InTable cols half_w cs) rs
    → All (InTable cols half_w cs') rs
    → All (λ row. R (counter cs row (cols row) half_w) (counter cs' row (cols row) half_w)) rs
    → R m m'
    → (e : ℕ) × (e' : ℕ) × (estimate_rows cols half_w rs cs m ≡ some e)
      × (estimate_rows cols half_w rs cs' m' ≡ some e')
      × R e e'
unfolding estimate_rows
estimate_rows-related R cols half_w [] cs cs' m m' keep h h' rel r = (m, m', refl, refl, r)
estimate_rows-related R cols half_w (row ∷ rs) cs cs' m m' keep h h' rel r =
    let v = counter cs row (cols row) half_w in
    let v' = counter cs' row (cols row) half_w in
    let (e, e', runs, runs', last) =
      estimate_rows-related R cols half_w rs cs cs' (if ltb v m then v else m)
        (if ltb v' m' then v' else m') keep h.1 h'.1 rel.1 (keep m m' v v' r rel.0) in
    (
      e,
      e',
      rw (estimate_rows, nibble_get-counter cs row (cols row) half_w h.0) runs,
      rw (estimate_rows, nibble_get-counter cs' row (cols row) half_w h'.0) runs',
      last,
    )

pub estimate_total :
    (q : Bytes) (s : CountMinSketch) → IsSketch s → (e : ℕ) × (estimate q s ≡ some e)
unfolding estimate
estimate_total q s h =
    let (e, e', is_e, is_e', less) =
      estimate_rows-related (λ e e'. e ≤ e') (columns q s) s.half_w rows s.counters s.counters
        (2 ^ 64 - 1) (2 ^ 64 - 1) (λ a a' b b' x y. ground arith)
        (rows-InTable s q s.counters h refl) (rows-InTable s q s.counters h refl)
        (each_counter (columns q s) s.half_w rows s.counters s.counters (Grows-refl s.counters))
        (omega arith) in
    (e, is_e)

increment-exact :
    (key cs : Bytes) (s : CountMinSketch)
    → increment_rows (columns key s) s.half_w rows s.counters ≡ some cs
    → leb s.sample_size (s.additions + 1) ≡ false
    → increment key s ≡ some (record s { counters = cs; additions = s.additions + 1 })
unfolding increment
increment-exact key cs s runs young = rw (increment, runs, young) refl

-- The first counts at least one more, up to 15, and the second no less.
abbrev CountedOn : ℕ → ℕ → Type 0
CountedOn e e' = min 15 (e + 1) ≤ e'

-- An increment of a sketch that is not due for aging succeeds, and counts as an addition: the estimate of the key is then at
-- least one more than before, up to 15, and the estimate of no key is less than before.
pub estimate-increment :
    (key : Bytes) (s : CountMinSketch)
    → IsSketch s
    → s.additions + 1 < s.sample_size
    → (s' : CountMinSketch) × (increment key s ≡ some s')
      × IsSketch s'
      × (s'.additions ≡ s.additions + 1)
      × (s'.sample_size ≡ s.sample_size)
      × ((e : ℕ) × (e' : ℕ) × (estimate key s ≡ some e)
          × (estimate key s' ≡ some e')
          × (min 15 (e + 1) ≤ e'))
      × ((q : Bytes)
          → (e : ℕ) × (e' : ℕ) × (estimate q s ≡ some e) × (estimate q s' ≡ some e') × (e ≤ e'))
unfolding estimate columns
estimate-increment key s h young =
    let (cs, runs, grows, counted) =
      increment_rows-Grows (columns key s) s.half_w rows s.counters
        (rows-InTable s key s.counters h refl) in
    let s' : CountMinSketch = record s { counters = cs; additions = s.additions + 1 } in
    (
      s',
      increment-exact key cs s runs (ground arith),
      record { positive = h.positive; even = h.even; sized = grows.as_long ∙ h.sized },
      refl,
      refl,
      estimate_rows-related CountedOn (columns key s) s.half_w rows s.counters cs (2 ^ 64 - 1)
          (2 ^ 64 - 1) (λ a a' b b' x y. ground arith) (rows-InTable s key s.counters h refl)
          (rows-InTable s key cs h grows.as_long) counted (omega arith),
      λ q.
          estimate_rows-related (λ e e'. e ≤ e') (columns q s) s.half_w rows s.counters cs
            (2 ^ 64 - 1) (2 ^ 64 - 1) (λ a a' b b' x y. ground arith)
            (rows-InTable s q s.counters h refl) (rows-InTable s q cs h grows.as_long)
            (each_counter (columns q s) s.half_w rows s.counters cs grows) (omega arith),
    )
