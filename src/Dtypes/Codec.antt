-- ===== src/Dtypes/Codec.antt =====
-- The bytes of values: `bytes_from_*` and `*_from_bytes` of src/dtypes.rs.
pub mod Laws
pub mod RoundTrip
pub mod Inputs
pub mod DecodedElements
pub mod Decoded
use peach_db.Base.{
  ℕ, zero, suc, ◌+◌, Bool, not, ◌&&◌, List, [], ◌∷◌, ◌++◌, ltb, leb, ◌==◌, length, take, drop,
  if◌then◌else◌,
}
use peach_db.Base.Words.{Bytes, as_u32, to_le_bytes, from_le_bytes}
use peach_db.Base.Int64.{i64_bits, i64_from_bits}
use peach_db.Base.Utf8.{is_utf8}
use peach_db.Error.{
  Outcome, ok, err, panic, buffer_too_short, unknown_dtype, corrupted_record, ◌>>=◌,
}
use peach_db.Dtypes.Dtype
use peach_db.Dtypes.Dtype.{Dtype}
use peach_db.Dtypes.Field
use peach_db.Dtypes.Field.{Primitive, Field, primitive, raw, array, integer, float, string, boolean}
use peach_db.Dtypes.Field.{dtype_of}

abbrev pub field_len_byte_size : ℕ
field_len_byte_size = 4

unfoldable pub bool_byte : Bool → ℕ
bool_byte b = if b then 1 else 0

unfoldable pub bytes_from_primitive : Primitive → Bytes
bytes_from_primitive (integer n) = to_le_bytes 8 (i64_bits n)
bytes_from_primitive (float f) = to_le_bytes 8 f
bytes_from_primitive (string s) = to_le_bytes 4 (as_u32 (length s)) ++ s
bytes_from_primitive (boolean b) = bool_byte b ∷ []

-- `&buf[from..]` and `&buf[from..to]`
unfoldable pub slice_from : ℕ → Bytes → Outcome Bytes
slice_from lo buf = if leb lo (length buf) then ok (drop lo buf) else panic

unfoldable pub slice_range : ℕ → ℕ → Bytes → Outcome Bytes
slice_range lo hi buf =
    if leb lo hi && leb hi (length buf) then ok (drop lo (take hi buf)) else panic

-- `buf[0] != 0`
unfoldable pub first_nonzero : Bytes → Outcome Bool
first_nonzero [] = panic
first_nonzero (b ∷ buf) = ok (not (b == 0))

abbrev pub string_from_utf8 : Bytes → Outcome Bytes
string_from_utf8 s = if is_utf8 s then ok s else err (corrupted_record "invalid utf8")

unfoldable pub read_string : Bytes → Outcome (Primitive × ℕ)
read_string buf = do
  let len : ℕ = from_le_bytes (take 4 buf)
  bytes ← slice_range 4 (4 + len) buf
  s ← string_from_utf8 bytes
  ok (string s, field_len_byte_size + len)

unfoldable pub primitive_from_bytes : Dtype → Bytes → Outcome (Primitive × ℕ)
primitive_from_bytes Dtype.integer buf =
    if ltb (length buf) 8
    then err buffer_too_short
    else ok (integer (i64_from_bits (from_le_bytes (take 8 buf))), 8)
primitive_from_bytes Dtype.float buf =
    if ltb (length buf) 8 then err buffer_too_short else ok (float (from_le_bytes (take 8 buf)), 8)
primitive_from_bytes Dtype.boolean buf = do b ← first_nonzero buf; ok (boolean b, 1)
primitive_from_bytes Dtype.string buf =
    if ltb (length buf) 4 then err buffer_too_short else read_string buf
primitive_from_bytes Dtype.raw buf = err (unknown_dtype (Dtype.as_byte Dtype.raw))
primitive_from_bytes (Dtype.array of) buf = err (unknown_dtype (Dtype.as_byte (Dtype.array of)))

unfoldable pub element_bytes : List Primitive → Bytes
element_bytes [] = []
element_bytes (p ∷ ps) = bytes_from_primitive p ++ element_bytes ps

unfoldable pub bytes_from_field : Field → Bytes
bytes_from_field (primitive p) = Dtype.as_byte (Field.dtype (primitive p)) ∷ bytes_from_primitive p
bytes_from_field (raw bytes) = Dtype.as_byte (Field.dtype (raw bytes)) ∷ bytes
bytes_from_field (array dt ps) =
    Dtype.as_byte (Dtype.array (Dtype.as_byte dt))
    ∷ (to_le_bytes 4 (as_u32 (length ps)) ++ element_bytes ps)

-- `for _ in 0..count`: the elements behind `offset`, and the offset behind them.
unfoldable pub read_elements : ℕ → Dtype → Bytes → ℕ → List Primitive → Outcome (List Primitive × ℕ)
read_elements zero dt payload offset v = ok (v, offset)
read_elements (suc count) dt payload offset v = do
  rest ← slice_from offset payload
  (p, consumed) ← primitive_from_bytes dt rest
  read_elements count dt payload (offset + consumed) (v ++ p ∷ [])

unfoldable pub read_array : ℕ → Bytes → Outcome (Field × ℕ)
read_array inner payload = if ltb (length payload) 4 then err buffer_too_short else do
  inner_dt ← Dtype.try_from inner
  (v, offset) ← read_elements (from_le_bytes (take 4 payload)) inner_dt payload 4 []
  ok (array inner_dt v, 1 + offset)

unfoldable pub read_primitive : Dtype → Bytes → Outcome (Field × ℕ)
read_primitive dt payload = do (p, c) ← primitive_from_bytes dt payload; ok (primitive p, 1 + c)

-- The match on the type byte inside `field_from_bytes`.
unfoldable pub read_payload : Dtype → Bytes → Outcome (Field × ℕ)
read_payload Dtype.raw payload = ok (raw payload, 1 + length payload)
read_payload (Dtype.array inner) payload = read_array inner payload
read_payload dt payload = read_primitive dt payload

unfoldable pub field_from_bytes : Bytes → Outcome (Field × ℕ)
field_from_bytes [] = err buffer_too_short
field_from_bytes (b ∷ payload) = do dt ← Dtype.try_from b; read_payload dt payload
