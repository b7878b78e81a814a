-- ===== src/Cache/Sketch/Doorkeeper/Memory.antt =====
-- A key put into a `Doorkeeper` of crates/oxistore-cache/src/sketch.rs, before other keys.
use oxistore.Common.{
  ℕ, ◌*◌, ◌/◌, ◌%◌, ◌<◌, ◌≡◌, refl, sym, ◌∙◌, ap, Bool, true, Option, none, some, List, [], ◌∷◌,
  length, arith, All,
}
use oxistore.Common.Bytes.{Bytes}
use oxistore.Cache.Sketch.{row_col, rows}
use oxistore.Cache.Sketch.Doorkeeper.{Doorkeeper, positions, with_bits, put}
use oxistore.Cache.Sketch.Doorkeeper.Membership.{Keeps, IsIn, put_rows-Keeps, put_rows-IsIn}

pub record IsDoorkeeper (d : Doorkeeper) : Type 0 where
  pub num_bits_pos : 0 < d.num_bits
  pub words : d.num_bits ≡ 64 * length d.bits

-- Keys put one after the other.
unfoldable pub put_all : List Bytes → Doorkeeper → Option Doorkeeper
put_all [] d = some d
put_all (key_bytes ∷ rest) d = elim (put key_bytes d) [
  | none ↦ none
  | some (seen, d1) ↦ put_all rest d1
]

positions_lt :
    (key_bytes : Bytes) (d : Doorkeeper)
    → IsDoorkeeper d
    → (row : ℕ) → positions key_bytes d row / 64 < length d.bits
unfolding positions row_col
positions_lt key_bytes d v row = omega (arith, v.num_bits_pos, v.words)

record Later (d d' : Doorkeeper) : Type 0 where
  same_bits : d'.num_bits ≡ d.num_bits
  keeps : Keeps d.bits d'.bits

Has : Bytes → Doorkeeper → Doorkeeper → Type 0
Has key_bytes d d' = All (λ row. IsIn d'.bits (positions key_bytes d row)) rows

put-Later :
    (key_bytes : Bytes) (d : Doorkeeper)
    → IsDoorkeeper d
    → (r : Bool) × (d' : Doorkeeper) × (put key_bytes d ≡ some (r, d'))
      × Later d d'
      × IsDoorkeeper d'
      × Has key_bytes d d'
unfolding put Has
put-Later key_bytes d v =
    let (r, bs, runs, keeps, all_in) =
      put_rows-Keeps (positions key_bytes d) rows true d.bits (positions_lt key_bytes d v) in
    (
      r,
      record d { bits = bs },
      ap (with_bits d) runs,
      record { same_bits = refl; keeps = keeps },
      record {
        num_bits_pos = v.num_bits_pos;
        words = v.words ∙ ap (λ n. 64 * n) (sym keeps.as_long);
      },
      all_in,
    )

put_all-Later :
    (keys : List Bytes) (d : Doorkeeper)
    → IsDoorkeeper d
    → (d' : Doorkeeper) × (put_all keys d ≡ some d') × Later d d' × IsDoorkeeper d'
unfolding put_all
put_all-Later [] d v =
    (d, refl, record { same_bits = refl; keeps = record { as_long = refl; kept = λ i b e. e } }, v)
put_all-Later (key_bytes ∷ rest) d v =
    let (r, d1, runs, later, v1, all_in) = put-Later key_bytes d v in
    let (d', goes, later', v') = put_all-Later rest d1 v1 in
    (
      d',
      rw (put_all, runs) goes,
      record {
        same_bits = later'.same_bits ∙ later.same_bits;
        keeps = record {
          as_long = later'.keeps.as_long ∙ later.keeps.as_long;
          kept = λ i b e. later'.keeps.kept i b (later.keeps.kept i b e);
        };
      },
      v',
    )

All-IsIn :
    (bs bs' : List ℕ)
    → Keeps bs bs'
    → (ps qs : ℕ → ℕ) → ((row : ℕ) → qs row ≡ ps row)
    → (rs : List ℕ) → All (λ row. IsIn bs (ps row)) rs
    → All (λ row. IsIn bs' (qs row)) rs
All-IsIn bs bs' keeps ps qs same [] all_in = tt
All-IsIn bs bs' keeps ps qs same (row ∷ rs) all_in = (
  rw (same row) (keeps.kept (ps row / 64) (ps row % 64) all_in.0),
  All-IsIn bs bs' keeps ps qs same rs all_in.1,
)

positions-Later :
    (key_bytes : Bytes) (d d' : Doorkeeper)
    → d'.num_bits ≡ d.num_bits
    → (row : ℕ) → positions key_bytes d' row ≡ positions key_bytes d row
unfolding positions
positions-Later key_bytes d d' same row = rw (same) refl

-- In a doorkeeper whose words hold its positive number of bits, putting a key succeeds, putting any
-- further keys succeeds, and putting the first key again then answers that it was seen and changes
-- nothing.
pub put-put_all :
    (key_bytes : Bytes) (keys : List Bytes) (d : Doorkeeper)
    → IsDoorkeeper d
    → (r : Bool) × (d1 : Doorkeeper) × (d2 : Doorkeeper) × (put key_bytes d ≡ some (r, d1))
      × (put_all keys d1 ≡ some d2)
      × (put key_bytes d2 ≡ some (true, d2))
unfolding put Has
put-put_all key_bytes keys d v =
    let (r, d1, runs, later, v1, all_in) = put-Later key_bytes d v in
    let (d2, goes, later', v2) = put_all-Later keys d1 v1 in
    let there =
      All-IsIn d1.bits d2.bits later'.keeps (positions key_bytes d) (positions key_bytes d2)
        (positions-Later key_bytes d d2 (later'.same_bits ∙ later.same_bits)) rows all_in in
    (
      r,
      d1,
      d2,
      runs,
      goes,
      ap (with_bits d2) (
          put_rows-IsIn (positions key_bytes d2) rows d2.bits (positions_lt key_bytes d2 v2) there),
    )
