-- ===== src/Dtypes/Codec/Decoded.antt =====
-- What the decoders of src/dtypes.rs accept: well-formed values, no larger than the input.
use Prim.Native.Nat.{bit_and}
use peach_db.Base.{
  ℕ, zero, suc, ◌+◌, ◌<◌, ◌^◌, ◌≡◌, refl, ap, Bool, true, ◌&&◌, [], ◌∷◌, arith, length, take, ltb,
  ◌==◌, ==_iff, Bool-cases, inl, inr, All, length-append,
}
use peach_db.Base.Words.{Bytes, IsByte, from_le_bytes, as_u32, to_le_bytes, length-to_le_bytes}
use peach_db.Error.{Outcome, ok, along_ok, >>=-eq-ok}
use peach_db.Dtypes.Dtype
use peach_db.Dtypes.Dtype.{Dtype}
use peach_db.Dtypes.Field.{Field, primitive, raw, array}
use peach_db.Dtypes.Codec.{
  primitive_from_bytes, read_elements, element_bytes, read_array, read_primitive, read_payload,
  field_from_bytes, bytes_from_field,
}
use peach_db.Dtypes.Codec.Laws.{IsFlat, IsField}
use peach_db.Dtypes.Codec.DecodedElements.{
  word-lt_4, read_elements-Accepted, primitive_from_bytes-Accepted,
}

-- The low half of the type byte of an array is no array's.
holds_below : (n : ℕ) → (ℕ → Bool) → Bool
holds_below zero p = true
holds_below (suc n) p = p n && holds_below n p

below_holds : (n k : ℕ) (p : ℕ → Bool) → holds_below n p ≡ true → k < n → p k ≡ true
unfolding holds_below
below_holds zero k p h lt = absurd (omega arith)
below_holds (suc n) k p h lt = elim (Bool-cases (k == n)) [
  | inl here ↦ ground (arith, ap p ((==_iff k n).0 here), h)
  | inr other ↦ below_holds n k p (ground (arith, h)) (ground (arith, other))
]

low_byte : (b : ℕ) → b < 0x1f → bit_and b 0x0f < 0x10
unfolding holds_below
low_byte b h = ground (arith, below_holds 0x1f b (λ k. ltb (bit_and k 0x0f) 0x10) refl h)

array_of-lt : (b of : ℕ) → Dtype.try_from b ≡ ok (Dtype.array of) → of < 0x10
unfolding Dtype.try_from
array_of-lt b of h = ground (arith, h, low_byte b)

try_from-IsFlat : (b : ℕ) (dt : Dtype) → b < 0x10 → Dtype.try_from b ≡ ok dt → IsFlat dt
unfolding Dtype.try_from
try_from-IsFlat b Dtype.raw lt h = tt
try_from-IsFlat b Dtype.integer lt h = tt
try_from-IsFlat b Dtype.float lt h = tt
try_from-IsFlat b Dtype.string lt h = tt
try_from-IsFlat b Dtype.boolean lt h = tt
try_from-IsFlat b (Dtype.array of) lt h = ground (arith, h)

-- A well-formed value that its encoder turns into `n` bytes.
abbrev IsTaken : Field → ℕ → Type 0
IsTaken f n = IsField f × (length (bytes_from_field f) ≡ n)

IsTaken-along :
    (g : Field) (m : ℕ) (f : Field) (n : ℕ)
    → IsTaken g m
    → ◌≡◌ {A = Outcome (Field × ℕ)} (ok (g, m)) (ok (f, n))
    → IsTaken f n
IsTaken-along g m f n a h = along_ok (λ (r : Field × ℕ). IsTaken r.0 r.1) h a

read_array-IsTaken :
    (of : ℕ) (payload : Bytes) (f : Field) (n : ℕ)
    → All IsByte payload
    → of < 0x10
    → read_array of payload ≡ ok (f, n)
    → IsTaken f n
unfolding read_array bytes_from_field element_bytes
read_array-IsTaken of payload f n is low h = elim (Bool-cases (ltb (length payload) 4)) [
  | inl short ↦ cc (rw short at h)
  | inr long ↦
      let count = from_le_bytes (take 4 payload) in
      let (dt, flat, h₁) = >>=-eq-ok (Dtype.try_from of) _ (rw long at h) in
      let (r, q, h₂) = >>=-eq-ok (read_elements count dt payload 4 []) _ h₁ in
      let (all, size, ends) = read_elements-Accepted count dt payload 4 [] r.0 r.1 is tt q in
      let small : count < 2 ^ 32 = word-lt_4 payload is (ground (arith, long)) in
      IsTaken-along (array dt r.0) (1 + r.1) f n
        (
          (try_from-IsFlat of dt low flat, omega (arith, size, small), all),
          omega (
            arith,
            ends,
            length-append (to_le_bytes 4 (as_u32 (length r.0))) (element_bytes r.0),
            length-to_le_bytes 4 (as_u32 (length r.0)),
          ),
        )
        h₂
]

read_primitive-IsTaken :
    (dt : Dtype) (payload : Bytes) (f : Field) (n : ℕ)
    → All IsByte payload
    → read_primitive dt payload ≡ ok (f, n)
    → IsTaken f n
unfolding read_primitive bytes_from_field
read_primitive-IsTaken dt payload f n is h =
    let (r, q, e) = >>=-eq-ok (primitive_from_bytes dt payload) _ h in
    let (same, valid, size) = primitive_from_bytes-Accepted dt payload r.0 r.1 is q in
    IsTaken-along (primitive r.0) (1 + r.1) f n (valid, omega (arith, size)) e

read_payload-IsTaken :
    (b : ℕ) (dt : Dtype) (payload : Bytes) (f : Field) (n : ℕ)
    → Dtype.try_from b ≡ ok dt
    → All IsByte payload
    → read_payload dt payload ≡ ok (f, n)
    → IsTaken f n
unfolding read_payload bytes_from_field
read_payload-IsTaken b Dtype.raw payload f n t is h =
    IsTaken-along (raw payload) (1 + length payload) f n (tt, omega arith) h
read_payload-IsTaken b (Dtype.array of) payload f n t is h =
    read_array-IsTaken of payload f n is (array_of-lt b of t) h
read_payload-IsTaken b Dtype.integer payload f n t is h =
    read_primitive-IsTaken Dtype.integer payload f n is h
read_payload-IsTaken b Dtype.float payload f n t is h =
    read_primitive-IsTaken Dtype.float payload f n is h
read_payload-IsTaken b Dtype.string payload f n t is h =
    read_primitive-IsTaken Dtype.string payload f n is h
read_payload-IsTaken b Dtype.boolean payload f n t is h =
    read_primitive-IsTaken Dtype.boolean payload f n is h

-- Every value that the decoder accepts is well formed, and the number of bytes that it reports is
-- that of the value's own encoding.
pub field_from_bytes-IsTaken :
    (buf : Bytes) (f : Field) (n : ℕ)
    → All IsByte buf
    → field_from_bytes buf ≡ ok (f, n)
    → IsField f × (length (bytes_from_field f) ≡ n)
unfolding field_from_bytes
field_from_bytes-IsTaken [] f n is h = cc h
field_from_bytes-IsTaken (b ∷ payload) f n (ib, is) h =
    let (dt, t, e) = >>=-eq-ok (Dtype.try_from b) _ h in
    read_payload-IsTaken b dt payload f n t is e
