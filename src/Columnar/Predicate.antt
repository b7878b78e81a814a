-- ===== src/Columnar/Predicate.antt =====
-- crates/oxistore-columnar/src/predicate.rs: predicates, their value on the rows of a batch, and
-- the test whether the statistics of a row group leave room for a matching row. The texts of
-- `SchemaMismatch` errors are left out. The floats and their operations are parameters.
pub mod Rows
pub mod Groups
pub mod Bounds
pub mod Pruning
pub mod Totality
use oxistore.Common.{
  ℕ, zero, suc, ◌≡◌, Bool, true, false, not, ◌&&◌, ◌||◌, Option, none, some, List, [], ◌∷◌, ltb,
  leb, ◌==◌, length, if◌then◌else◌, Result, ok, err, map_err, replicate, get_elem?,
}
use oxistore.Common.Assoc.{lookup}
use oxistore.Common.Bytes.{Bytes, bytes_dec}
use oxistore.Columnar.Ordered.{ℤ, Ordered, ints, byte_strings, eqb_bytes}
use oxistore.Columnar.Arrow.{Array, BooleanArray, Kernel, Compute}

pub data CmpOp : Type 0 where
  eq ne lt le gt ge : CmpOp

pub data Scalar (F32 F64 : Type 0) : Type 0 where
  bool : Bool → Scalar F32 F64
  int32 : ℤ → Scalar F32 F64
  int64 : ℤ → Scalar F32 F64
  float32 : F32 → Scalar F32 F64
  float64 : F64 → Scalar F32 F64
  bytes : Bytes → Scalar F32 F64
  null : Scalar F32 F64

-- `Predicate`, and the vectors of predicates under `And` and `Or`.
mutual
  pub data Predicate (F32 F64 : Type 0) : Type 0 where
    cmp : Bytes → CmpOp → Scalar F32 F64 → Predicate F32 F64
    and : Predicates F32 F64 → Predicate F32 F64
    or : Predicates F32 F64 → Predicate F32 F64
    neg : Predicate F32 F64 → Predicate F32 F64
    everything : Predicate F32 F64
    nothing : Predicate F32 F64

  pub data Predicates (F32 F64 : Type 0) : Type 0 where
    nil : Predicates F32 F64
    cons : Predicate F32 F64 → Predicates F32 F64 → Predicates F32 F64

-- The errors that a predicate can give.
pub data ColumnarError (E : Type 0) : Type 0 where
  arrow : E → ColumnarError E
  schema_mismatch : ColumnarError E

-- A column of a batch, by its arrow type.
pub data Column (F32 F64 : Type 0) : Type 0 where
  int32_array : Array ℤ → Column F32 F64
  int64_array : Array ℤ → Column F32 F64
  float32_array : Array F32 → Column F32 F64
  float64_array : Array F64 → Column F32 F64
  string_array : Array Bytes → Column F32 F64
  other_array : Column F32 F64

pub record RecordBatch (F32 F64 : Type 0) : Type 0 where
  pub fields : List (Bytes × Column F32 F64)
  pub num_rows : ℕ

-- `f32` and `f64`: comparisons, `is_nan`, and `(a - b).abs() < EPSILON`.
pub record Float (F : Type 0) : Type 0 where
  pub order : Ordered F
  pub is_nan : F → Bool
  pub near : F → F → Bool

-- The statistics of a column chunk: `min_opt`, `max_opt`, `null_count_opt`.
pub record ValueStatistics (T : Type 0) : Type 0 where
  pub min : Option T
  pub max : Option T
  pub null_count : Option ℕ

-- `Statistics` of parquet; `int96` and `FixedLenByteArray` are `unsupported`.
pub data Statistics (F32 F64 : Type 0) : Type 0 where
  of_boolean : ValueStatistics Bool → Statistics F32 F64
  of_int32 : ValueStatistics ℤ → Statistics F32 F64
  of_int64 : ValueStatistics ℤ → Statistics F32 F64
  of_float : ValueStatistics F32 → Statistics F32 F64
  of_double : ValueStatistics F64 → Statistics F32 F64
  of_byte_array : ValueStatistics Bytes → Statistics F32 F64
  unsupported : Statistics F32 F64
