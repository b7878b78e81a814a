-- ===== src/Encrypt/Cell/Identity.antt =====
-- The associated data of a cell determine the cell.
use oxistore.Common.{
  ℕ, ◌+◌, ◌*◌, ◌/◌, ◌^◌, ◌<◌, ◌≡◌, refl, sym, ◌∙◌, ap, [], ◌∷◌, ◌++◌, length, take, drop, arith,
  zero, suc, take-append, drop-append,
}
use oxistore.Common.Bytes.{Bytes}
use oxistore.Encrypt.Cell.{CellId, le_bytes, to_aad_bytes}

pub length-le_bytes : (width n : ℕ) → length (le_bytes width n) ≡ width
unfolding le_bytes
length-le_bytes zero n = refl
length-le_bytes (suc width) n = omega (arith, length-le_bytes width (n / 256))

-- The number that a list of bytes stands for.
unfoldable from_le : Bytes → ℕ
from_le [] = 0
from_le (b ∷ bs) = b + 256 * from_le bs

from_le-le_bytes : (width n : ℕ) → n < 256 ^ width → from_le (le_bytes width n) ≡ n
unfolding le_bytes from_le
from_le-le_bytes zero n h = omega arith
from_le-le_bytes (suc width) n h =
    let small : n < 256 * 256 ^ width = omega arith in
    let rest = from_le-le_bytes width (n / 256) (omega arith) in omega arith

pub record IsCellId (id : CellId) : Type 0 where
  pub table_fits : id.table_id < 2 ^ 64
  pub row_fits : id.row_id < 2 ^ 64
  pub col_fits : id.col_id < 2 ^ 32

le_bytes-injective :
    (width m n : ℕ)
    → m < 256 ^ width
    → n < 256 ^ width
    → le_bytes width m ≡ le_bytes width n
    → m ≡ n
le_bytes-injective width m n hm hn e =
    sym (from_le-le_bytes width m hm) ∙ ap from_le e ∙ from_le-le_bytes width n hn

-- The associated data of two cells whose numbers fit their widths are the same only if the cells
-- are.
pub to_aad_bytes-injective :
    (a b : CellId) → IsCellId a → IsCellId b → to_aad_bytes a ≡ to_aad_bytes b → a ≡ b
unfolding to_aad_bytes
to_aad_bytes-injective a b ha hb e =
    let ta = le_bytes 8 a.table_id in
    let tb = le_bytes 8 b.table_id in
    let ra = le_bytes 8 a.row_id in
    let rb = le_bytes 8 b.row_id in
    let ca = le_bytes 4 a.col_id in
    let cb = le_bytes 4 b.col_id in
    let tables : ta ≡ tb =
      sym (take-append ta (ra ++ ca) 8 (length-le_bytes 8 a.table_id))
      ∙ ap (take 8) e
      ∙ take-append tb (rb ++ cb) 8 (length-le_bytes 8 b.table_id) in
    let rest : ra ++ ca ≡ rb ++ cb =
      sym (drop-append ta (ra ++ ca) 8 (length-le_bytes 8 a.table_id))
      ∙ ap (drop 8) e
      ∙ drop-append tb (rb ++ cb) 8 (length-le_bytes 8 b.table_id) in
    let rows : ra ≡ rb =
      sym (take-append ra ca 8 (length-le_bytes 8 a.row_id))
      ∙ ap (take 8) rest
      ∙ take-append rb cb 8 (length-le_bytes 8 b.row_id) in
    let cols : ca ≡ cb =
      sym (drop-append ra ca 8 (length-le_bytes 8 a.row_id))
      ∙ ap (drop 8) rest
      ∙ drop-append rb cb 8 (length-le_bytes 8 b.row_id) in
    let t =
      le_bytes-injective 8 a.table_id b.table_id (omega (arith, ha.table_fits))
        (omega (arith, hb.table_fits)) tables in
    let r =
      le_bytes-injective 8 a.row_id b.row_id (omega (arith, ha.row_fits))
        (omega (arith, hb.row_fits)) rows in
    let c =
      le_bytes-injective 4 a.col_id b.col_id (omega (arith, ha.col_fits))
        (omega (arith, hb.col_fits)) cols in
    rw (t, r, c) refl
