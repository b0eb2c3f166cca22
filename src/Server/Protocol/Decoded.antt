-- ===== src/Server/Protocol/Decoded.antt =====
-- What `decode_request` of src/server/protocol.rs accepts.
use peach_db.Base.{
  ℕ, ◌<◌, ◌^◌, ◌≡◌, Bool-cases, inl, inr, ◌==◌, [], ◌∷◌, sym, subst, arith, All, length,
  length-take, leb, reverse, length-reverse,
}
use peach_db.Base.Words.{Bytes, IsByte, from_be_bytes, from_le_bytes-lt}
use peach_db.Error.{ok, along_ok, >>=-eq-ok}
use peach_db.Cursor
use peach_db.Cursor.{Cursor, Crates, remaining, advance, read_exact}
use peach_db.Dtypes.Key.{Key}
use peach_db.Dtypes.Field.{Field}
use peach_db.Dtypes.Codec.{field_from_bytes}
use peach_db.Dtypes.Codec.Inputs.{field_from_bytes-le}
use peach_db.Dtypes.Codec.DecodedElements.{take-IsByte, drop-IsByte, All-snoc}
use peach_db.Dtypes.Codec.Decoded.{field_from_bytes-IsTaken}
use peach_db.Db.WalCodec.RoundTrip.{IsKey, IsStored}
use peach_db.Server.Protocol.{
  Command, Request, command_from, read_key, read_field, read_arguments, read_command,
  decode_request,
}
use peach_db.Server.Protocol.RoundTrip.{IsRequest}
use mathlib.Core.List.{reverse-append}

reverse-IsByte : (bs : Bytes) → All IsByte bs → All IsByte (reverse bs)
reverse-IsByte [] h = tt
reverse-IsByte (b ∷ bs) (hb, hs) =
    subst (All IsByte) (sym (reverse-append (b ∷ []) bs))
      (All-snoc IsByte (reverse bs) (reverse-IsByte bs hs) hb)

from_be_bytes-lt : (bs : Bytes) → All IsByte bs → from_be_bytes bs < 256 ^ length bs
unfolding from_be_bytes
from_be_bytes-lt bs h =
    rw (length-reverse bs) at (from_le_bytes-lt (reverse bs) (reverse-IsByte bs h))

-- The bytes of a read, and the input behind it.
read_exact-IsByte :
    (n : ℕ) (c : Cursor) (r : Bytes × Cursor)
    → All IsByte c.inner
    → read_exact n c ≡ ok r
    → All IsByte r.0 × (length r.0 ≡ n) × All IsByte r.1.inner
unfolding read_exact
read_exact-IsByte n c r is h = elim (Bool-cases (leb n (length (remaining c)))) [
  | inl fits ↦
      along_ok (λ (r : Bytes × Cursor). All IsByte r.0 × (length r.0 ≡ n) × All IsByte r.1.inner)
        (rw fits at h)
        (
          take-IsByte n (remaining c) (drop-IsByte c.position c.inner is),
          ground (arith, length-take n (remaining c), fits),
          is,
        )
  | inr over ↦ cc (rw over at h)
]

module _ (crates : Crates) where
  read_uint_be-lt :
      (n : ℕ) (c : Cursor) (r : ℕ × Cursor)
      → All IsByte c.inner
      → crates.read_uint_be n c ≡ ok r
      → (r.0 < 256 ^ n) × All IsByte r.1.inner
  read_uint_be-lt n c r is h =
      let (b, e, q) = >>=-eq-ok (read_exact n c) _ (rw crates.read_uint_be_lem at h) in
      let (bytes, size, rest) = read_exact-IsByte n c b is e in
      along_ok (λ (r : ℕ × Cursor). (r.0 < 256 ^ n) × All IsByte r.1.inner) q
        (subst (λ m. from_be_bytes b.0 < 256 ^ m) size (from_be_bytes-lt b.0 bytes), rest)

  read_u8-IsByte :
      (c : Cursor) (r : ℕ × Cursor)
      → All IsByte c.inner
      → crates.read_uint_le 1 c ≡ ok r
      → All IsByte r.1.inner
  read_u8-IsByte c r is h =
      let (b, e, q) = >>=-eq-ok (read_exact 1 c) _ (rw crates.read_uint_le_lem at h) in
      let (bytes, size, rest) = read_exact-IsByte 1 c b is e in
      along_ok (λ (r : ℕ × Cursor). All IsByte r.1.inner) q rest

  read_key-IsKey :
      (c : Cursor) (r : Key × Cursor)
      → All IsByte c.inner
      → read_key crates c ≡ ok r
      → IsKey r.0 × All IsByte r.1.inner
  unfolding read_key
  read_key-IsKey c r is h =
      let (n, e₁, h₁) = >>=-eq-ok (crates.read_uint_be 2 c) _ h in
      let (short, is₁) = read_uint_be-lt 2 c n is e₁ in
      let (b, e₂, h₂) = >>=-eq-ok (read_exact n.0 n.1) _ h₁ in
      let (bytes, size, is₂) = read_exact-IsByte n.0 n.1 b is₁ e₂ in
      along_ok (λ (r : Key × Cursor). IsKey r.0 × All IsByte r.1.inner) h₂
        (omega (arith, size, short), is₂)

  read_field-IsStored :
      (c : Cursor) (r : Field × Cursor)
      → All IsByte c.inner
      → read_field crates c ≡ ok r
      → IsStored r.0
  unfolding read_field
  read_field-IsStored c r is h =
      let (n, e₁, h₁) = >>=-eq-ok (crates.read_uint_be 4 c) _ h in
      let (short, is₁) = read_uint_be-lt 4 c n is e₁ in
      let (b, e₂, h₂) = >>=-eq-ok (read_exact n.0 n.1) _ h₁ in
      let (bytes, size, is₂) = read_exact-IsByte n.0 n.1 b is₁ e₂ in
      let (f, e₃, h₃) = >>=-eq-ok (field_from_bytes b.0) _ h₂ in
      let (valid, taken) = field_from_bytes-IsTaken b.0 f.0 f.1 bytes e₃ in
      along_ok (λ (r : Field × Cursor). IsStored r.0) h₃
        (valid, omega (arith, taken, field_from_bytes-le b.0 f.0 f.1 e₃, size, short))

  read_arguments-IsRequest :
      (cmd : Command) (c : Cursor) (r : Request)
      → All IsByte c.inner
      → read_arguments crates cmd c ≡ ok r
      → IsRequest r
  unfolding read_arguments
  read_arguments-IsRequest Command.ping c r is h = along_ok IsRequest h tt
  read_arguments-IsRequest Command.keys c r is h = along_ok IsRequest h tt
  read_arguments-IsRequest Command.get c r is h =
      let (k, e, h₁) = >>=-eq-ok (read_key crates c) _ h in
      along_ok IsRequest h₁ (read_key-IsKey c k is e).0
  read_arguments-IsRequest Command.del c r is h =
      let (k, e, h₁) = >>=-eq-ok (read_key crates c) _ h in
      along_ok IsRequest h₁ (read_key-IsKey c k is e).0
  read_arguments-IsRequest Command.set c r is h =
      let (k, e, h₁) = >>=-eq-ok (read_key crates c) _ h in
      let (short, is₁) = read_key-IsKey c k is e in
      let (f, e₂, h₂) = >>=-eq-ok (read_field crates k.1) _ h₁ in
      along_ok IsRequest h₂ (short, read_field-IsStored k.1 f is₁ e₂)

  -- Every request that the server accepts is well formed: its key is shorter than 2 ^ 16 bytes, and
  -- its value is a well-formed one shorter than 2 ^ 32 bytes. So it can be logged and read back.
  pub decode_request-IsRequest :
      (bytes : Bytes) (r : Request)
      → All IsByte bytes
      → decode_request crates bytes ≡ ok r
      → IsRequest r
  unfolding decode_request read_command
  decode_request-IsRequest bytes r is h =
      let (v, e, h₁) = >>=-eq-ok (crates.read_uint_le 1 (Cursor.new bytes)) _ h in
      let is₁ = read_u8-IsByte (Cursor.new bytes) v is e in
      elim (Bool-cases (v.0 == 0x01)) [
        | inl known ↦
            let (b, e₂, h₂) = >>=-eq-ok (crates.read_uint_le 1 v.1) _ (rw known at h₁) in
            let is₂ = read_u8-IsByte v.1 b is₁ e₂ in
            let (cmd, e₃, h₃) = >>=-eq-ok (command_from b.0) _ h₂ in
            read_arguments-IsRequest cmd b.1 r is₂ h₃
        | inr other ↦ cc (rw other at h₁)
      ]
