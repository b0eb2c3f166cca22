-- ===== src/Dtypes/Codec/RoundTrip.antt =====
-- The codec of src/dtypes.rs: encoding, then decoding.
use peach_db.Base.{
  ℕ, suc, ◌+◌, ◌≤◌, ◌<◌, ◌^◌, ◌≡◌, refl, ap, ◌∙◌, true, false, not, Bool, List, [], ◌∷◌, ◌++◌,
  arith, length, take, drop, All, take_here, drop_here, length-append, drop-add, le→ltb, ltb,
  length-drop, drop-append, ◌==◌,
}
use peach_db.Base.Words.{
  Bytes, as_u32, to_le_bytes, from_le_bytes, length-to_le_bytes, from_le_bytes-to_le_bytes,
}
use peach_db.Base.Int64.{i64_bits, i64_bits-lt, i64_from_bits-i64_bits}
use peach_db.Error.{ok}
use peach_db.Dtypes.Dtype
use peach_db.Dtypes.Dtype.{Dtype}
use peach_db.Dtypes.Field
use peach_db.Dtypes.Field.{
  Primitive, Field, primitive, raw, array, integer, float, string, boolean, dtype_of,
}
use peach_db.Dtypes.Codec.{
  bytes_from_primitive, primitive_from_bytes, element_bytes, read_elements, bytes_from_field,
  field_from_bytes, read_payload, read_array, read_primitive, read_string, bool_byte, first_nonzero,
}
use peach_db.Dtypes.Codec.Laws.{
  IsPrimitive, IsElement, IsFlat, IsField, slice_range_here, slice_from_here,
}
use native.Mathlib.Nat.{mod-eq_of_lt, add-zero, add_assoc}
use mathlib.Core.List.{append_assoc, append-nil}

word_first : (w n : ℕ) (rest : Bytes) → take w (to_le_bytes w n ++ rest) ≡ to_le_bytes w n
word_first w n rest = take_here w (to_le_bytes w n) rest (length-to_le_bytes w n)

word_long : (w n : ℕ) (rest : Bytes) → w ≤ length (to_le_bytes w n ++ rest)
word_long w n rest = rw (length-append, length-to_le_bytes) (omega arith)

-- The length test on an input that begins with a word.
word_fits : (w n : ℕ) (rest : Bytes) → ltb (length (to_le_bytes w n ++ rest)) w ≡ false
word_fits w n rest = le→ltb (length (to_le_bytes w n ++ rest)) w (word_long w n rest)

word_back :
    (w n : ℕ) (rest : Bytes) → n < 256 ^ w → from_le_bytes (take w (to_le_bytes w n ++ rest)) ≡ n
word_back w n rest h = rw word_first (from_le_bytes-to_le_bytes w n h)

string_back :
    (s rest : Bytes)
    → IsPrimitive (string s)
    → read_string ((to_le_bytes 4 (as_u32 (length s)) ++ s) ++ rest) ≡ ok (string s, 4 + length s)
unfolding read_string
string_back s rest (valid, short) = rw (
  append_assoc,
  word_back 4 (as_u32 (length s)) (s ++ rest) (omega arith),
  mod-eq_of_lt short,
  slice_range_here 4 (length s) (to_le_bytes 4 (length s)) s rest (length-to_le_bytes 4 (length s))
      refl,
  valid,
)

boolean_back : (b : Bool) → not (bool_byte b == 0) ≡ b
unfolding bool_byte
boolean_back true = refl
boolean_back false = refl

primitive-bytes :
    (p : Primitive) (rest : Bytes)
    → IsPrimitive p
    → primitive_from_bytes (dtype_of p) (bytes_from_primitive p ++ rest)
      ≡ ok (p, length (bytes_from_primitive p))
unfolding dtype_of primitive_from_bytes bytes_from_primitive
primitive-bytes (integer n) rest h = rw (
  word_fits 8 (i64_bits n) rest,
  word_back 8 (i64_bits n) rest (i64_bits-lt n),
  i64_from_bits-i64_bits n h,
  length-to_le_bytes 8 (i64_bits n),
)
primitive-bytes (float f) rest h =
    rw (word_fits 8 f rest, word_back 8 f rest h, length-to_le_bytes 8 f)
primitive-bytes (string s) rest h = rw (
  long,
  string_back s rest h,
  length-append (to_le_bytes 4 (as_u32 (length s))) s,
  length-to_le_bytes 4 (as_u32 (length s)),
)
  where
    long : ltb (length ((to_le_bytes 4 (as_u32 (length s)) ++ s) ++ rest)) 4 ≡ false
    long =
        rw (append_assoc (to_le_bytes 4 (as_u32 (length s))) s rest)
          (word_fits 4 (as_u32 (length s)) (s ++ rest))
primitive-bytes (boolean b) rest h = unfold first_nonzero in rw boolean_back

-- The loop over the elements, from an offset at which they stand.
read_elements-element_bytes :
    (dt : Dtype) (ps : List Primitive) (payload rest : Bytes) (offset : ℕ) (v : List Primitive)
    → All (IsElement dt) ps
    → offset ≤ length payload
    → drop offset payload ≡ element_bytes ps ++ rest
    → read_elements (length ps) dt payload offset v
      ≡ ok (v ++ ps, offset + length (element_bytes ps))
unfolding read_elements element_bytes
read_elements-element_bytes dt [] payload rest offset v h fits here = rw (append-nil, add-zero)
read_elements-element_bytes dt (p ∷ ps) payload rest offset v ((same, valid), hs) fits here =
    rw
      (
        slice_from_here offset payload _ fits
            (here ∙ append_assoc (bytes_from_primitive p) (element_bytes ps) rest),
        ← same,
        primitive-bytes p (element_bytes ps ++ rest) valid,
      )
      (rw same (
        read_elements-element_bytes dt ps payload rest (offset + length first) (v ++ p ∷ []) hs
          (omega (
            arith,
            ap length here',
            length-drop offset payload,
            length-append first (element_bytes ps ++ rest),
          ))
          (drop-add offset (length first) payload
            ∙ ap (drop (length first)) here'
            ∙ drop-append first (element_bytes ps ++ rest))
        ∙ ap ok tail))
  where
    first : Bytes
    first = bytes_from_primitive p

    here' : drop offset payload ≡ first ++ (element_bytes ps ++ rest)
    here' = here ∙ append_assoc first (element_bytes ps) rest

    tail :
        ◌≡◌ {A = List Primitive × ℕ}
          ((v ++ p ∷ []) ++ ps, (offset + length first) + length (element_bytes ps))
          (v ++ p ∷ ps, offset + length (first ++ element_bytes ps))
    tail = rw (append_assoc, length-append, add_assoc)

-- The type byte of a primitive is read back.
try_from-dtype_of : (p : Primitive) → Dtype.try_from (Dtype.as_byte (dtype_of p)) ≡ ok (dtype_of p)
unfolding Dtype.try_from Dtype.as_byte dtype_of
try_from-dtype_of (integer n) = refl
try_from-dtype_of (float f) = refl
try_from-dtype_of (string s) = refl
try_from-dtype_of (boolean b) = refl

-- The type byte of an array, and the type that its low half names.
array_byte :
    (dt : Dtype)
    → IsFlat dt
    → (Dtype.try_from (Dtype.as_byte (Dtype.array (Dtype.as_byte dt)))
        ≡ ok (Dtype.array (Dtype.as_byte dt)))
      × (Dtype.try_from (Dtype.as_byte dt) ≡ ok dt)
unfolding Dtype.try_from Dtype.as_byte
array_byte Dtype.raw h = (refl, refl)
array_byte Dtype.integer h = (refl, refl)
array_byte Dtype.float h = (refl, refl)
array_byte Dtype.string h = (refl, refl)
array_byte Dtype.boolean h = (refl, refl)
array_byte (Dtype.array of) h = absurd h

read_payload-primitive :
    (p : Primitive) (payload : Bytes)
    → read_payload (dtype_of p) payload ≡ read_primitive (dtype_of p) payload
unfolding read_payload dtype_of
read_payload-primitive (integer n) payload = refl
read_payload-primitive (float f) payload = refl
read_payload-primitive (string s) payload = refl
read_payload-primitive (boolean b) payload = refl

-- A well-formed primitive is read back from its bytes, and what follows is not looked at.
pub field_from_bytes-primitive :
    (p : Primitive) (rest : Bytes)
    → IsPrimitive p
    → field_from_bytes (bytes_from_field (primitive p) ++ rest)
      ≡ ok (primitive p, length (bytes_from_field (primitive p)))
unfolding field_from_bytes bytes_from_field Field.dtype
field_from_bytes-primitive p rest h =
    rw (try_from-dtype_of, read_payload-primitive)
      (unfold read_primitive in
        rw (primitive-bytes p rest h) (ap (λ n. ok (primitive p, n)) (omega arith)))

array_payload :
    (dt : Dtype) (ps : List Primitive) (rest : Bytes)
    → IsField (array dt ps)
    → read_array
        (Dtype.as_byte dt)
        ((to_le_bytes 4 (as_u32 (length ps)) ++ element_bytes ps) ++ rest)
      ≡ ok (array dt ps, 1 + (4 + length (element_bytes ps)))
unfolding read_array
array_payload dt ps rest (flat, short, elements) = rw (
  append_assoc,
  word_fits 4 (as_u32 (length ps)) (element_bytes ps ++ rest),
  word_back 4 (as_u32 (length ps)) (element_bytes ps ++ rest) (omega arith),
  mod-eq_of_lt short,
  (array_byte dt flat).1,
  read_elements-element_bytes dt ps (to_le_bytes 4 (length ps) ++ (element_bytes ps ++ rest)) rest 4
      [] elements (word_long 4 (length ps) _)
      (drop_here 4 (to_le_bytes 4 (length ps)) _ (length-to_le_bytes 4 (length ps))),
)

-- Every well-formed value is read back from its bytes, and all of them are consumed.
pub field_from_bytes-bytes_from_field :
    (f : Field)
    → IsField f
    → field_from_bytes (bytes_from_field f) ≡ ok (f, length (bytes_from_field f))
field_from_bytes-bytes_from_field (primitive p) h =
    rw (append-nil) at (field_from_bytes-primitive p [] h)
field_from_bytes-bytes_from_field (raw bytes) h =
    unfold field_from_bytes bytes_from_field Field.dtype Dtype.as_byte Dtype.try_from
      read_payload in
    ap (λ n. ok (raw bytes, n)) (omega arith)
field_from_bytes-bytes_from_field (array dt ps) h =
    unfold field_from_bytes bytes_from_field in
    rw ((array_byte dt h.0).0) (
      unfold read_payload in
      (rw append-nil at (array_payload dt ps [] h)) ∙ ap (λ n. ok (array dt ps, n)) size)
  where
    size :
        1 + (4 + length (element_bytes ps))
        ≡ suc (length (to_le_bytes 4 (as_u32 (length ps)) ++ element_bytes ps))
    size = omega (
      arith,
      length-append (to_le_bytes 4 (as_u32 (length ps))) (element_bytes ps),
      length-to_le_bytes 4 (as_u32 (length ps)),
    )
