-- ===== src/Dtypes/Codec/DecodedElements.antt =====
-- What the decoders of src/dtypes.rs accept: primitives, and the elements of an array.
use peach_db.Base.{
  ℕ, zero, suc, ◌+◌, ◌≤◌, ◌<◌, ◌^◌, ◌≡◌, refl, ap, subst, not, List, [], ◌∷◌, ◌++◌, arith, length,
  take, drop, ltb, leb, ◌==◌, Bool-cases, inl, inr, All, length-append, length-drop, length-take,
}
use peach_db.Base.Words.{
  Bytes, IsByte, from_le_bytes, from_le_bytes-lt, as_u32, to_le_bytes, length-to_le_bytes,
}
use peach_db.Base.Int64.{i64_bits, i64_from_bits, i64_from_bits-IsI64}
use peach_db.Base.Utf8.{is_utf8}
use peach_db.Error.{Outcome, ok, along_ok, ◌>>=◌, >>=-eq-ok}
use peach_db.Dtypes.Dtype.{Dtype}
use peach_db.Dtypes.Field.{Primitive, integer, float, string, boolean, dtype_of}
use peach_db.Dtypes.Codec.{
  bytes_from_primitive, primitive_from_bytes, read_string, string_from_utf8, first_nonzero,
  slice_range, slice_from, read_elements, element_bytes,
}
use peach_db.Dtypes.Codec.Laws.{IsPrimitive, IsElement}

pub take-IsByte : (n : ℕ) (bs : Bytes) → All IsByte bs → All IsByte (take n bs)
take-IsByte zero bs h = tt
take-IsByte (suc n) [] h = tt
take-IsByte (suc n) (b ∷ bs) (hb, hs) = (hb, take-IsByte n bs hs)

pub drop-IsByte : (n : ℕ) (bs : Bytes) → All IsByte bs → All IsByte (drop n bs)
drop-IsByte zero bs h = h
drop-IsByte (suc n) [] h = tt
drop-IsByte (suc n) (b ∷ bs) (hb, hs) = drop-IsByte n bs hs

word-lt_8 : (bs : Bytes) → All IsByte bs → 8 ≤ length bs → from_le_bytes (take 8 bs) < 2 ^ 64
word-lt_8 bs h long =
    omega (arith, ap (λ n. 256 ^ n) (size), from_le_bytes-lt (take 8 bs) (take-IsByte 8 bs h))
  where
    size : length (take 8 bs) ≡ 8
    size = omega (arith, length-take 8 bs)

pub word-lt_4 : (bs : Bytes) → All IsByte bs → 4 ≤ length bs → from_le_bytes (take 4 bs) < 2 ^ 32
word-lt_4 bs h long =
    omega (arith, ap (λ n. 256 ^ n) (size), from_le_bytes-lt (take 4 bs) (take-IsByte 4 bs h))
  where
    size : length (take 4 bs) ≡ 4
    size = omega (arith, length-take 4 bs)

-- A primitive of the type `dt`, which its `n` bytes would encode.
abbrev pub Accepted : Dtype → Primitive → ℕ → Type 0
Accepted dt p n = (dtype_of p ≡ dt) × IsPrimitive p × (length (bytes_from_primitive p) ≡ n)

length-range :
    (lo hi : ℕ) (buf bytes : Bytes)
    → slice_range lo hi buf ≡ ok bytes
    → (lo ≤ hi) × (hi ≤ length buf) × (lo + length bytes ≡ hi)
unfolding slice_range
length-range lo hi buf bytes h = ground (arith, length-drop lo (take hi buf), length-take hi buf)

Accepted-along :
    (dt : Dtype) (q : Primitive) (m : ℕ) (p : Primitive) (n : ℕ)
    → Accepted dt q m
    → ◌≡◌ {A = Outcome (Primitive × ℕ)} (ok (q, m)) (ok (p, n))
    → Accepted dt p n
Accepted-along dt q m p n a h = along_ok (λ (r : Primitive × ℕ). Accepted dt r.0 r.1) h a

string-Accepted :
    (bytes : Bytes) (len : ℕ) (p : Primitive) (n : ℕ)
    → length bytes ≡ len
    → len < 2 ^ 32
    → ◌>>=◌ {B = Primitive × ℕ} (string_from_utf8 bytes) (λ (s : Bytes). ok (string s, 4 + len))
      ≡ ok (p, n)
    → Accepted Dtype.string p n
unfolding dtype_of bytes_from_primitive
string-Accepted bytes len p n e short h = elim (Bool-cases (is_utf8 bytes)) [
  | inl valid ↦
      Accepted-along Dtype.string (string bytes) (4 + len) p n
        (
          refl,
          (valid, omega (arith, e)),
          omega (
            arith,
            e,
            length-append (to_le_bytes 4 (as_u32 (length bytes))) bytes,
            length-to_le_bytes 4 (as_u32 (length bytes)),
          ),
        )
        (rw valid at h)
  | inr bad ↦ cc (rw bad at h)
]

read_string-Accepted :
    (buf : Bytes) (p : Primitive) (n : ℕ)
    → All IsByte buf
    → 4 ≤ length buf
    → read_string buf ≡ ok (p, n)
    → Accepted Dtype.string p n
unfolding read_string
read_string-Accepted buf p n is long h =
    let (bytes, e₁, h₁) = >>=-eq-ok (slice_range 4 (4 + from_le_bytes (take 4 buf)) buf) _ h in
    string-Accepted bytes (from_le_bytes (take 4 buf)) p n
      (omega (arith, length-range 4 (4 + from_le_bytes (take 4 buf)) buf bytes e₁))
      (word-lt_4 buf is long) h₁

pub primitive_from_bytes-Accepted :
    (dt : Dtype) (buf : Bytes) (p : Primitive) (n : ℕ)
    → All IsByte buf
    → primitive_from_bytes dt buf ≡ ok (p, n)
    → Accepted dt p n
unfolding primitive_from_bytes dtype_of bytes_from_primitive
primitive_from_bytes-Accepted Dtype.integer buf p n is h = elim (Bool-cases (ltb (length buf) 8)) [
  | inl short ↦ cc (rw short at h)
  | inr long ↦
      Accepted-along Dtype.integer (integer (i64_from_bits (from_le_bytes (take 8 buf)))) 8 p n
        (
          refl,
          i64_from_bits-IsI64 _ (word-lt_8 buf is (ground (arith, long))),
          length-to_le_bytes 8 (i64_bits (i64_from_bits (from_le_bytes (take 8 buf)))),
        )
        (rw long at h)
]
primitive_from_bytes-Accepted Dtype.float buf p n is h = elim (Bool-cases (ltb (length buf) 8)) [
  | inl short ↦ cc (rw short at h)
  | inr long ↦
      Accepted-along Dtype.float (float (from_le_bytes (take 8 buf))) 8 p n
        (
          refl,
          word-lt_8 buf is (ground (arith, long)),
          length-to_le_bytes 8 (from_le_bytes (take 8 buf)),
        )
        (rw long at h)
]
primitive_from_bytes-Accepted Dtype.boolean [] p n is h = unfold first_nonzero in cc h
primitive_from_bytes-Accepted Dtype.boolean (b ∷ buf) p n is h =
    Accepted-along Dtype.boolean (boolean (not (b == 0))) 1 p n (refl, tt, refl)
      (unfold first_nonzero in h)
primitive_from_bytes-Accepted Dtype.string buf p n is h = elim (Bool-cases (ltb (length buf) 4)) [
  | inl short ↦ cc (rw short at h)
  | inr long ↦ read_string-Accepted buf p n is (ground (arith, long)) (rw long at h)
]
primitive_from_bytes-Accepted Dtype.raw buf p n is h = cc h
primitive_from_bytes-Accepted (Dtype.array of) buf p n is h = cc h

pub All-snoc {ℓ κ} :
    {A : Type ℓ} (P : A → Type κ) {a : A} (xs : List A) → All P xs → P a → All P (xs ++ a ∷ [])
All-snoc P [] hs h = (h, tt)
All-snoc P (x ∷ xs) (hx, hs) h = (hx, All-snoc P xs hs h)

length-element_bytes :
    (ps : List Primitive) (p : Primitive)
    → length (element_bytes (ps ++ p ∷ []))
      ≡ length (element_bytes ps) + length (bytes_from_primitive p)
unfolding element_bytes
length-element_bytes [] p = omega (arith, length-append (bytes_from_primitive p) [])
length-element_bytes (q ∷ ps) p = omega (
  arith,
  length-element_bytes ps p,
  length-append (bytes_from_primitive q) (element_bytes (ps ++ p ∷ [])),
  length-append (bytes_from_primitive q) (element_bytes ps),
)

slice_from-IsByte :
    (lo : ℕ) (buf rest : Bytes) → All IsByte buf → slice_from lo buf ≡ ok rest → All IsByte rest
unfolding slice_from
slice_from-IsByte lo buf rest is h = elim (Bool-cases (leb lo (length buf))) [
  | inl fits ↦ subst (All IsByte) (cc (rw fits at h)) (drop-IsByte lo buf is)
  | inr over ↦ cc (rw over at h)
]

pub read_elements-Accepted :
    (count : ℕ) (dt : Dtype) (payload : Bytes) (offset : ℕ) (v ps : List Primitive) (n : ℕ)
    → All IsByte payload
    → All (IsElement dt) v
    → read_elements count dt payload offset v ≡ ok (ps, n)
    → All (IsElement dt) ps
      × (length ps ≡ length v + count)
      × (offset + length (element_bytes ps) ≡ n + length (element_bytes v))
unfolding read_elements
read_elements-Accepted zero dt payload offset v ps n is good h =
    subst
      (λ (r : List Primitive × ℕ).
        All (IsElement dt) r.0
        × (length r.0 ≡ length v + 0)
        × (offset + length (element_bytes r.0) ≡ r.1 + length (element_bytes v)))
      (ground (arith, h)) (good, omega arith, refl)
read_elements-Accepted (suc count) dt payload offset v ps n is good h =
    let (rest, s, h₁) = >>=-eq-ok (slice_from offset payload) _ h in
    let (r, q, h₂) = >>=-eq-ok (primitive_from_bytes dt rest) _ h₁ in
    let (same, valid, size) =
      primitive_from_bytes-Accepted dt rest r.0 r.1 (slice_from-IsByte offset payload rest is s)
        q in
    let (all, count_is, ends) =
      read_elements-Accepted count dt payload (offset + r.1) (v ++ r.0 ∷ []) ps n is
        (All-snoc (IsElement dt) v good (same, valid)) h₂ in
    (
      all,
      omega (arith, count_is, length-append v (r.0 ∷ [])),
      omega (arith, ends, size, length-element_bytes v r.0),
    )
