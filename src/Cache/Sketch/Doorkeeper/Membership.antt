-- ===== src/Cache/Sketch/Doorkeeper/Membership.antt =====
-- A `Doorkeeper` never forgets a key.
use oxistore.Common.{
  ℕ, zero, suc, ◌+◌, ◌*◌, ◌/◌, ◌%◌, ◌<◌, ◌≡◌, ◌≢◌, refl, sym, ◌∙◌, ap, Bool, true, false, Option,
  none, some, List, [], ◌∷◌, length, get_or, length-set, ◌==◌, if◌then◌else◌, arith, ℕ_discrete,
  Bool-cases, inl, inr, All,
}
use oxistore.Common as Common
use oxistore.Cache.Sketch.Counters.{get_elem?-get_or, get_or-set_self, get_or-set_ne}
use oxistore.Cache.Sketch.Doorkeeper.{has_bit, with_bit, put_row, put_rows, then_rows}

has_bit-with_bit : (bit word : ℕ) → has_bit bit (with_bit bit word) ≡ true
unfolding has_bit with_bit
has_bit-with_bit zero word = ground arith
has_bit-with_bit (suc bit) word =
    let half : (word % 2 + 2 * with_bit bit (word / 2)) / 2 ≡ with_bit bit (word / 2) =
      omega arith in
    ap (has_bit bit) half ∙ has_bit-with_bit bit (word / 2)

has_bit-with_bit_kept :
    (bit other word : ℕ) → has_bit other word ≡ true → has_bit other (with_bit bit word) ≡ true
unfolding has_bit with_bit
has_bit-with_bit_kept zero zero word h = ground arith
has_bit-with_bit_kept zero (suc other) word h =
    let half : (word / 2 * 2 + 1) / 2 ≡ word / 2 = omega arith in ap (has_bit other) half ∙ h
has_bit-with_bit_kept (suc bit) zero word h = ground arith
has_bit-with_bit_kept (suc bit) (suc other) word h =
    let half : (word % 2 + 2 * with_bit bit (word / 2)) / 2 ≡ with_bit bit (word / 2) =
      omega arith in
    ap (has_bit other) half ∙ has_bit-with_bit_kept bit other (word / 2) h

-- No bit is lost.
pub record Keeps (bs bs' : List ℕ) : Type 0 where
  pub as_long : length bs' ≡ length bs
  pub kept : (i b : ℕ) → has_bit b (get_or bs i 0) ≡ true → has_bit b (get_or bs' i 0) ≡ true

abbrev pub IsIn : List ℕ → ℕ → Type 0
IsIn bs pos = has_bit (pos % 64) (get_or bs (pos / 64) 0) ≡ true

put_row-IsIn :
    (pos : ℕ) (all_set : Bool) (bs : List ℕ)
    → pos / 64 < length bs
    → IsIn bs pos
    → put_row pos all_set bs ≡ some (all_set, bs)
unfolding put_row
put_row-IsIn pos all_set bs h there = rw (put_row, get_elem?-get_or bs (pos / 64) h, there) refl

put_row-not_IsIn :
    (pos : ℕ) (all_set : Bool) (bs : List ℕ)
    → pos / 64 < length bs
    → has_bit (pos % 64) (get_or bs (pos / 64) 0) ≡ false
    → put_row pos all_set bs
      ≡ some (false, Common.set bs (pos / 64) (with_bit (pos % 64) (get_or bs (pos / 64) 0)))
unfolding put_row
put_row-not_IsIn pos all_set bs h out = rw (put_row, get_elem?-get_or bs (pos / 64) h, out) refl

put_row-Keeps :
    (pos : ℕ) (all_set : Bool) (bs : List ℕ)
    → pos / 64 < length bs
    → (r : Bool) × (bs' : List ℕ) × (put_row pos all_set bs ≡ some (r, bs'))
      × Keeps bs bs'
      × IsIn bs' pos
put_row-Keeps pos all_set bs h = elim (Bool-cases (has_bit (pos % 64) (get_or bs (pos / 64) 0))) [
  | inl there ↦ (
    all_set,
    bs,
    put_row-IsIn pos all_set bs h there,
    record { as_long = refl; kept = λ i b e. e },
    there,
  )
  | inr out ↦
      let word : ℕ = with_bit (pos % 64) (get_or bs (pos / 64) 0) in
      let here = get_or-set_self bs (pos / 64) word h in
      (
        false,
        Common.set bs (pos / 64) word,
        put_row-not_IsIn pos all_set bs h out,
        record {
          as_long = length-set bs (pos / 64) word;
          kept = λ i b e. elim (ℕ_discrete (pos / 64) i) [
            | yes same ↦
                rw (← same, here)
                  (has_bit-with_bit_kept (pos % 64) b (get_or bs (pos / 64) 0) (rw (same) e))
            | no ne ↦ ap (has_bit b) (get_or-set_ne bs (pos / 64) i word ne) ∙ e
          ];
        },
        ap (has_bit (pos % 64)) here ∙ has_bit-with_bit (pos % 64) (get_or bs (pos / 64) 0),
      )
]

pub put_rows-Keeps :
    (ps : ℕ → ℕ) (rs : List ℕ) (all_set : Bool) (bs : List ℕ)
    → ((row : ℕ) → ps row / 64 < length bs)
    → (r : Bool) × (bs' : List ℕ) × (put_rows ps rs all_set bs ≡ some (r, bs'))
      × Keeps bs bs'
      × All (λ row. IsIn bs' (ps row)) rs
unfolding put_rows
put_rows-Keeps ps [] all_set bs h =
    (all_set, bs, refl, record { as_long = refl; kept = λ i b e. e }, tt)
put_rows-Keeps ps (row ∷ rs) all_set bs h =
    let (r1, bs1, runs, keeps, there) = put_row-Keeps (ps row) all_set bs (h row) in
    let (r, bs', rest, keeps', all_in) =
      put_rows-Keeps ps rs r1 bs1 (λ x. omega (arith, h x, keeps.as_long)) in
    (
      r,
      bs',
      ap (λ o. then_rows o (put_rows ps rs)) runs ∙ rest,
      record {
        as_long = keeps'.as_long ∙ keeps.as_long;
        kept = λ i b e. keeps'.kept i b (keeps.kept i b e);
      },
      (keeps'.kept (ps row / 64) (ps row % 64) there, all_in),
    )

pub put_rows-IsIn :
    (ps : ℕ → ℕ) (rs : List ℕ) (bs : List ℕ)
    → ((row : ℕ) → ps row / 64 < length bs)
    → All (λ row. IsIn bs (ps row)) rs
    → put_rows ps rs true bs ≡ some (true, bs)
unfolding put_rows
put_rows-IsIn ps [] bs h all_in = refl
put_rows-IsIn ps (row ∷ rs) bs h all_in =
    ap (λ o. then_rows o (put_rows ps rs)) (put_row-IsIn (ps row) true bs (h row) all_in.0)
    ∙ put_rows-IsIn ps rs bs h all_in.1
