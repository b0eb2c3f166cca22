-- ===== src/Dtypes/Field.antt =====
-- `Primitive` and `Field` of src/dtypes.rs: the values.
use peach_db.Base.{ℕ, Bool, List, length, ◌==◌}
use peach_db.Base.Words.{Bytes}
use peach_db.Base.Int64.{ℤ, pos}
use peach_db.Dtypes.Dtype
use peach_db.Dtypes.Dtype.{Dtype}

-- An f64 by its 64 bits, a `String` by its UTF-8 bytes.
pub data Primitive : Type 0 where
  integer : ℤ → Primitive
  float : ℕ → Primitive
  string : Bytes → Primitive
  boolean : Bool → Primitive

pub data Field : Type 0 where
  primitive : Primitive → Field
  raw : Bytes → Field
  array : Dtype → List Primitive → Field

-- The match on a primitive inside `Field::dtype`.
unfoldable pub dtype_of : Primitive → Dtype
dtype_of (integer n) = Dtype.integer
dtype_of (float f) = Dtype.float
dtype_of (string s) = Dtype.string
dtype_of (boolean b) = Dtype.boolean

abbrev pub zero : Field
zero = primitive (integer (pos 0))

unfoldable pub len : Field → ℕ
len (primitive p) = 1
len (raw bytes) = length bytes
len (array dt a) = length a

unfoldable pub is_empty : Field → Bool
is_empty f = len f == 0

unfoldable pub dtype : Field → Dtype
dtype (primitive p) = dtype_of p
dtype (array dt a) = Dtype.array (Dtype.as_byte dt)
dtype (raw b) = Dtype.raw
