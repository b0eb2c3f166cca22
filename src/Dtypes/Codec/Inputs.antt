-- ===== src/Dtypes/Codec/Inputs.antt =====
-- The decoders of src/dtypes.rs on any input, well formed or not.
use peach_db.Base.{
  ℕ, zero, suc, ◌+◌, ◌-◌, ◌≤◌, ◌<◌, ◌≡◌, ◌≢◌, List, [], ◌∷◌, ◌++◌, arith, length, take, length-drop,
  ltb, Bool-cases, inl, inr,
}
use peach_db.Base.Words.{Bytes, from_le_bytes}
use peach_db.Error.{ok, panic, diverged, >>=-eq-ok, >>=-ne-diverged}
use peach_db.Dtypes.Dtype
use peach_db.Dtypes.Dtype.{Dtype}
use peach_db.Dtypes.Field.{Primitive, Field}
use peach_db.Dtypes.Codec.{
  primitive_from_bytes, read_string, first_nonzero, slice_range, slice_from, read_elements,
  read_array, read_primitive, read_payload, field_from_bytes,
}

-- A decoded primitive was inside the buffer.
primitive_from_bytes-le :
    (dt : Dtype) (buf : Bytes) (p : Primitive) (n : ℕ)
    → primitive_from_bytes dt buf ≡ ok (p, n)
    → n ≤ length buf
unfolding primitive_from_bytes read_string first_nonzero slice_range
primitive_from_bytes-le Dtype.integer buf p n h = ground arith
primitive_from_bytes-le Dtype.float buf p n h = ground arith
primitive_from_bytes-le Dtype.boolean [] p n h = ground arith
primitive_from_bytes-le Dtype.boolean (b ∷ buf) p n h = ground arith
primitive_from_bytes-le Dtype.string buf p n h = ground arith
primitive_from_bytes-le Dtype.raw buf p n h = cc
primitive_from_bytes-le (Dtype.array of) buf p n h = cc

slice_from_rest :
    (offset : ℕ) (buf rest : Bytes)
    → slice_from offset buf ≡ ok rest
    → (offset ≤ length buf) × (length rest ≡ length buf - offset)
unfolding slice_from
slice_from_rest offset buf rest h = ground (arith, length-drop offset buf)

read_elements-le :
    (count : ℕ) (dt : Dtype) (payload : Bytes) (offset : ℕ) (v ps : List Primitive) (n : ℕ)
    → offset ≤ length payload
    → read_elements count dt payload offset v ≡ ok (ps, n)
    → n ≤ length payload
unfolding read_elements slice_from
read_elements-le zero dt payload offset v ps n h e = ground arith
read_elements-le (suc count) dt payload offset v ps n h e =
    let (rest, s, e₁) = >>=-eq-ok (slice_from offset payload) _ e in
    let (r, q, e₂) = >>=-eq-ok (primitive_from_bytes dt rest) _ e₁ in
    read_elements-le count dt payload (offset + r.1) (v ++ r.0 ∷ []) ps n
      (omega
        (arith, slice_from_rest offset payload rest s, primitive_from_bytes-le dt rest r.0 r.1 q))
      e₂

primitive_from_bytes-ne-diverged :
    (dt : Dtype) (buf : Bytes) → primitive_from_bytes dt buf ≢ diverged
unfolding primitive_from_bytes read_string first_nonzero slice_range
primitive_from_bytes-ne-diverged Dtype.integer buf h = ground arith
primitive_from_bytes-ne-diverged Dtype.float buf h = ground arith
primitive_from_bytes-ne-diverged Dtype.boolean [] h = cc
primitive_from_bytes-ne-diverged Dtype.boolean (b ∷ buf) h = cc
primitive_from_bytes-ne-diverged Dtype.string buf h = ground arith
primitive_from_bytes-ne-diverged Dtype.raw buf h = cc
primitive_from_bytes-ne-diverged (Dtype.array of) buf h = cc

slice_from-ne-diverged : (offset : ℕ) (buf : Bytes) → slice_from offset buf ≢ diverged
unfolding slice_from
slice_from-ne-diverged offset buf h = ground arith

try_from-ne-diverged : (b : ℕ) → Dtype.try_from b ≢ diverged
unfolding Dtype.try_from
try_from-ne-diverged b h = ground arith

read_elements-ne-diverged :
    (count : ℕ) (dt : Dtype) (payload : Bytes) (offset : ℕ) (v : List Primitive)
    → read_elements count dt payload offset v ≢ diverged
unfolding read_elements
read_elements-ne-diverged zero dt payload offset v = λ p. cc
read_elements-ne-diverged (suc count) dt payload offset v =
    >>=-ne-diverged _ _ (slice_from-ne-diverged offset payload) λ rest _.
      >>=-ne-diverged _ _ (primitive_from_bytes-ne-diverged dt rest)
        λ r _. read_elements-ne-diverged count dt payload (offset + r.1) (v ++ r.0 ∷ [])

read_array-ne-diverged : (inner : ℕ) (payload : Bytes) → read_array inner payload ≢ diverged
unfolding read_array
read_array-ne-diverged inner payload = elim (Bool-cases (ltb (length payload) 4)) [
  | inl short ↦ rw short (λ p. cc)
  | inr long ↦ rw long (
      >>=-ne-diverged _ _ (try_from-ne-diverged inner)
        λ dt _. >>=-ne-diverged _ _ (read_elements-ne-diverged _ dt payload 4 []) λ r _ p. cc)
]

read_primitive-ne-diverged : (dt : Dtype) (payload : Bytes) → read_primitive dt payload ≢ diverged
unfolding read_primitive
read_primitive-ne-diverged dt payload =
    >>=-ne-diverged _ _ (primitive_from_bytes-ne-diverged dt payload) (λ r _ p. cc)

read_payload-ne-diverged : (dt : Dtype) (payload : Bytes) → read_payload dt payload ≢ diverged
unfolding read_payload
read_payload-ne-diverged Dtype.raw payload = λ p. cc
read_payload-ne-diverged (Dtype.array of) payload = read_array-ne-diverged of payload
read_payload-ne-diverged dt payload = read_primitive-ne-diverged dt payload

-- The decoder ends on every buffer.
pub field_from_bytes-ne-diverged : (buf : Bytes) → field_from_bytes buf ≢ diverged
unfolding field_from_bytes
field_from_bytes-ne-diverged [] = λ p. cc
field_from_bytes-ne-diverged (b ∷ payload) =
    >>=-ne-diverged _ _ (try_from-ne-diverged b) (λ dt _. read_payload-ne-diverged dt payload)

read_array-le :
    (inner : ℕ) (payload : Bytes) (f : Field) (n : ℕ)
    → read_array inner payload ≡ ok (f, n)
    → n ≤ suc (length payload)
unfolding read_array
read_array-le inner payload f n h = elim (Bool-cases (ltb (length payload) 4)) [
  | inl short ↦ cc (rw short at h)
  | inr long ↦
      let (dt, _, e₁) = >>=-eq-ok (Dtype.try_from inner) _ (rw long at h) in
      let (r, q, e₂) =
        >>=-eq-ok (read_elements (from_le_bytes (take 4 payload)) dt payload 4 []) _ e₁ in
      ground (arith, read_elements-le _ dt payload 4 [] r.0 r.1 (ground arith) q)
]

read_primitive-le :
    (dt : Dtype) (payload : Bytes) (f : Field) (n : ℕ)
    → read_primitive dt payload ≡ ok (f, n)
    → n ≤ suc (length payload)
unfolding read_primitive
read_primitive-le dt payload f n h =
    let (r, q, e) = >>=-eq-ok (primitive_from_bytes dt payload) _ h in
    ground (arith, primitive_from_bytes-le dt payload r.0 r.1 q)

read_payload-le :
    (dt : Dtype) (payload : Bytes) (f : Field) (n : ℕ)
    → read_payload dt payload ≡ ok (f, n)
    → n ≤ suc (length payload)
unfolding read_payload
read_payload-le Dtype.raw payload f n h = ground arith
read_payload-le (Dtype.array of) payload f n h = read_array-le of payload f n h
read_payload-le dt payload f n h = read_primitive-le dt payload f n h

-- Whatever the input, a decoded value took no more bytes than there are.
pub field_from_bytes-le :
    (buf : Bytes) (f : Field) (n : ℕ) → field_from_bytes buf ≡ ok (f, n) → n ≤ length buf
unfolding field_from_bytes
field_from_bytes-le [] f n h = cc
field_from_bytes-le (b ∷ payload) f n h =
    let (dt, _, e) = >>=-eq-ok (Dtype.try_from b) _ h in read_payload-le dt payload f n e

-- A text whose length says more than the buffer holds makes the decoder panic.
pub field_from_bytes_panics :
    (buf : Bytes)
    → 4 ≤ length buf
    → length buf < 4 + from_le_bytes (take 4 buf)
    → field_from_bytes (3 ∷ buf) ≡ panic
unfolding field_from_bytes Dtype.try_from read_payload read_primitive primitive_from_bytes
    read_string slice_range
field_from_bytes_panics buf h short = ground arith
