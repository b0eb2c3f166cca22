-- ===== src/Dtypes/Codec/Laws.antt =====
-- Well-formed values, and what the slices of the codec return.
use peach_db.Base.{
  ℕ, ◌+◌, ◌≤◌, ◌<◌, ◌^◌, ◌≡◌, true, ◌++◌, arith, length, drop, All, take_here, drop_here,
  length-append, le→leb,
}
use peach_db.Base.Words.{Bytes}
use peach_db.Base.Int64.{IsI64}
use peach_db.Base.Utf8.{is_utf8}
use peach_db.Error.{ok}
use peach_db.Dtypes.Dtype.{Dtype}
use peach_db.Dtypes.Field.{
  Primitive, Field, primitive, raw, array, integer, float, string, boolean, dtype_of,
}
use mathlib.Core.List.{append_assoc}
use peach_db.Dtypes.Codec.{slice_range, slice_from}

-- A value that Rust's types allow and whose text, if it is one, fits its u32 length.
abbrev pub IsPrimitive : Primitive → Type 0
IsPrimitive (integer n) = IsI64 n
IsPrimitive (float f) = f < 2 ^ 64
IsPrimitive (string s) = (is_utf8 s ≡ true) × (length s < 2 ^ 32)
IsPrimitive (boolean b) = Unit {0}

-- An element of an array whose type byte is that of `dt`.
abbrev pub IsElement : Dtype → Primitive → Type 0
IsElement dt p = (dtype_of p ≡ dt) × IsPrimitive p

abbrev pub IsFlat : Dtype → Type 0
IsFlat (Dtype.array of) = ⊥
IsFlat Dtype.raw = Unit {0}
IsFlat Dtype.integer = Unit {0}
IsFlat Dtype.float = Unit {0}
IsFlat Dtype.string = Unit {0}
IsFlat Dtype.boolean = Unit {0}

-- The types cannot say that the elements of an array are of its type, and that it is not an array
-- of arrays.
abbrev pub IsField : Field → Type 0
IsField (primitive p) = IsPrimitive p
IsField (raw bytes) = Unit {0}
IsField (array dt ps) = IsFlat dt × (length ps < 2 ^ 32) × All (IsElement dt) ps

-- The slice behind a prefix of known length.
pub slice_range_here :
    (n m : ℕ) (xs ys zs : Bytes)
    → length xs ≡ n
    → length ys ≡ m
    → slice_range n (n + m) (xs ++ (ys ++ zs)) ≡ ok ys
unfolding slice_range
slice_range_here n m xs ys zs e f = rw (
  le→leb n (n + m) (omega arith),
  le→leb (n + m) (length (xs ++ (ys ++ zs))) (omega (arith, total)),
  ← append_assoc xs ys zs,
  take_here (n + m) (xs ++ ys) zs (omega (arith, length-append xs ys)),
  drop_here n xs ys e,
)
  where
    total : length (xs ++ (ys ++ zs)) ≡ n + m + length zs
    total = omega (arith, length-append xs (ys ++ zs), length-append ys zs)

pub slice_from_here :
    (n : ℕ) (buf ys : Bytes) → n ≤ length buf → drop n buf ≡ ys → slice_from n buf ≡ ok ys
unfolding slice_from
slice_from_here n buf ys h e = rw (le→leb n (length buf) h, e)
