-- ===== src/Dtypes/Dtype.antt =====
-- `Dtype` of src/dtypes.rs: the type byte of a value.
use Prim.Native.Nat.{bit_and, bit_or}
use peach_db.Base.{ℕ, ◌&&◌, ltb, leb, ◌==◌, if◌then◌else◌}
use peach_db.Error.{Outcome, ok, err, unknown_dtype}

pub data Dtype : Type 0 where
  raw integer float string boolean : Dtype
  array : ℕ → Dtype

unfoldable pub as_byte : Dtype → ℕ
as_byte raw = 0x0
as_byte integer = 0x1
as_byte float = 0x2
as_byte string = 0x3
as_byte boolean = 0x4
as_byte (array of) = bit_or 0x10 of

-- `0x10..0x1F` does not hold 0x1F.
unfoldable pub try_from : ℕ → Outcome Dtype
try_from b =
    if b == 0x00
    then ok raw
    else if b == 0x01
    then ok integer
    else if b == 0x02
    then ok float
    else if b == 0x03
    then ok string
    else if b == 0x04
    then ok boolean
    else if leb 0x10 b && ltb b 0x1f
    then ok (array (bit_and b 0x0f))
    else err (unknown_dtype b)
