-- ===== src/Cache/Sketch/Undercount.antt =====
-- A sketch does not count too few before it ages.
use oxistore.Common.{
  ℕ, zero, suc, ◌+◌, ◌*◌, ◌≤◌, ◌<◌, ◌≡◌, refl, sym, ◌∙◌, ap, subst, min, Option, none, some, List,
  [], ◌∷◌, length, leb, arith, ite, if_pos, if_neg, replicate, Bool-cases, false, inl, inr,
}
use oxistore.Common.Bytes.{Bytes, bytes_dec}
use oxistore.Cache.Sketch.{CountMinSketch, increment, estimate, power_from, new}
use oxistore.Cache.Sketch.Estimates.{IsSketch, estimate-increment, estimate_total}

-- The keys incremented in turn.
unfoldable pub increment_all : List Bytes → CountMinSketch → Option CountMinSketch
increment_all [] s = some s
increment_all (key ∷ keys) s = elim (increment key s) [
  | none ↦ none
  | some s' ↦ increment_all keys s'
]

-- 1 if the keys are the same
abbrev pub one_if : Bytes → Bytes → ℕ
one_if key q = ite (bytes_dec key q) 1 0

abbrev pub occurrences : Bytes → List Bytes → ℕ
occurrences q [] = 0
occurrences q (key ∷ keys) = one_if key q + occurrences q keys

some_same : (a b : ℕ) (o : Option ℕ) → o ≡ some a → o ≡ some b → a ≡ b
some_same a b o e e' = ground arith

-- An increment counts its key, and no other key less.
once :
    (key q : Bytes) (s : CountMinSketch) (e : ℕ)
    → IsSketch s
    → s.additions + 1 < s.sample_size
    → estimate q s ≡ some e
    → (s' : CountMinSketch) × (increment key s ≡ some s')
      × IsSketch s'
      × (s'.additions ≡ s.additions + 1)
      × (s'.sample_size ≡ s.sample_size)
      × ((e' : ℕ) × (estimate q s' ≡ some e') × (min 15 (e + one_if key q) ≤ e'))
once key q s e h young is_e =
    let (s', runs, h', added, sized, (m, m', was, now, more), others) =
      estimate-increment key s h young in
    (
      s',
      runs,
      h',
      added,
      sized,
      elim (bytes_dec key q) [
        | yes same ↦
            let here : estimate key s ≡ some e =
              subst (λ x. estimate x s ≡ some e) (sym same) is_e in
            let one : one_if key q ≡ 1 = if_pos (bytes_dec key q) same _ _ in
            let same_e : m ≡ e = some_same m e (estimate key s) was here in
            (m', subst (λ x. estimate x s' ≡ some m') same now, omega arith)
        | no ne ↦
            let (k, k', was', now', less) = others q in
            let no_more : one_if key q ≡ 0 = if_neg (bytes_dec key q) ne _ _ in
            let same_e : k ≡ e = some_same k e (estimate q s) was' is_e in (k', now', omega arith)
      ],
    )

increment_all-exact :
    (key : Bytes) (keys : List Bytes) (s s' : CountMinSketch)
    → increment key s ≡ some s'
    → increment_all (key ∷ keys) s ≡ increment_all keys s'
unfolding increment_all
increment_all-exact key keys s s' e = rw (increment_all, e) refl

increment_all-counts :
    (keys : List Bytes) (q : Bytes) (s : CountMinSketch) (e : ℕ)
    → IsSketch s
    → s.additions + length keys < s.sample_size
    → estimate q s ≡ some e
    → (s' : CountMinSketch) × (e' : ℕ) × (increment_all keys s ≡ some s')
      × (estimate q s' ≡ some e')
      × (min 15 (e + occurrences q keys) ≤ e')
unfolding increment_all
increment_all-counts [] q s e h young is_e = (s, e, refl, is_e, omega arith)
increment_all-counts (key ∷ keys) q s e h young is_e =
    let (s1, runs, h1, added, sized, (e1, is_e1, more)) = once key q s e h (omega arith) is_e in
    let (s', e', rest, is_e', total) = increment_all-counts keys q s1 e1 h1 (omega arith) is_e1 in
    (s', e', increment_all-exact key keys s s1 runs ∙ rest, is_e', omega arith)

-- Before a sketch ages, the estimate of a key is at least what it was, and the number of times that the
-- key was incremented since, up to 15: for a sketch in order, and fewer increments than are left before
-- it ages, each of them succeeds.
pub estimate-increment_all :
    (keys : List Bytes) (q : Bytes) (s : CountMinSketch)
    → IsSketch s
    → s.additions + length keys < s.sample_size
    → (e : ℕ) × (s' : CountMinSketch) × (e' : ℕ) × (estimate q s ≡ some e)
      × (increment_all keys s ≡ some s')
      × (estimate q s' ≡ some e')
      × (min 15 (e + occurrences q keys) ≤ e')
estimate-increment_all keys q s h young =
    let (e, is_e) = estimate_total q s h in
    let (s', e', runs, is_e', total) = increment_all-counts keys q s e h young is_e in
    (e, s', e', is_e, runs, is_e', total)

doubled : (rounds p n : ℕ) → (k : ℕ) × (power_from rounds (p * 2) n ≡ 2 * k) × (p ≤ k)
unfolding power_from
doubled zero p n = (p, omega arith, omega arith)
doubled (suc rounds) p n =
    let (k, e, more) = doubled rounds (p * 2) n in
    elim (Bool-cases (leb n (p * 2))) [
      | inl there ↦ (p, rw (power_from, there) (omega arith), omega arith)
      | inr short ↦ (k, rw (power_from, short) e, omega arith)
    ]

power_start :
    (capacity : ℕ) → 2 ≤ capacity → power_from 64 1 capacity ≡ power_from 63 (1 * 2) capacity
unfolding power_from
power_start capacity h = let short : leb capacity 1 ≡ false = ground arith in rw (short) refl

length-replicate : (n : ℕ) → length {A = ℕ} (replicate n 0) ≡ n
length-replicate zero = refl
length-replicate (suc n) = ap suc (length-replicate n)

sized-IsSketch :
    (k w half_w size additions sample : ℕ)
    → 1 ≤ k
    → w ≡ 2 * k
    → half_w ≡ k
    → size ≡ 4 * k
    → IsSketch (record {
      counters = replicate size 0;
      w = w;
      half_w = half_w;
      additions = additions;
      sample_size = sample;
    })
sized-IsSketch k w half_w size additions sample h e1 e2 e3 = record {
  positive = omega arith;
  even = omega arith;
  sized = omega (arith, length-replicate size);
}

-- A new sketch for two items or more is in order.
pub new-IsSketch : (capacity : ℕ) → 2 ≤ capacity → IsSketch (new capacity)
unfolding new
new-IsSketch capacity h =
    let (k, e, more) = doubled 63 1 capacity in
    let start : power_from 64 1 capacity ≡ 2 * k = power_start capacity h ∙ e in
    sized-IsSketch k _ _ _ 0 (capacity * 10) more (ground arith) (ground arith) (ground arith)
