-- ===== src/Cursor.antt =====
-- `std::io::Cursor` over a byte slice, and the libraries that the code reads and hashes with.
pub mod Laws
pub mod Inputs
pub mod Within
use peach_db.Base.{ℕ, ◌+◌, ◌<◌, ◌^◌, ◌≡◌, leb, length, take, drop, if◌then◌else◌}
use peach_db.Base.Words.{Bytes, from_le_bytes, from_be_bytes}
use peach_db.Error.{Outcome, ok, err, io, unexpected_eof, ◌>>=◌}

pub record Cursor : Type 0 where
  pub inner : Bytes
  pub position : ℕ

abbrev pub new : Bytes → Cursor
new bytes = record { inner = bytes; position = 0 }

-- What is still to be read.
abbrev pub remaining : Cursor → Bytes
remaining c = drop c.position c.inner

-- `cursor.set_position(cursor.position() + n)`
abbrev pub advance : ℕ → Cursor → Cursor
advance n c = record c { position = c.position + n }

abbrev pub set_position : ℕ → Cursor → Cursor
set_position p c = record c { position = p }

-- `Read::read_exact` with a buffer of `n` bytes.
unfoldable pub read_exact : ℕ → Cursor → Outcome (Bytes × Cursor)
read_exact n c =
    if leb n (length (remaining c))
    then ok (take n (remaining c), advance n c)
    else err (io unexpected_eof)

-- The crates `crc` and `byteorder`. Their code is not in the repository, so it is a parameter:
-- `checksum` of `CRC_32_ISO_HDLC` returns a u32, and `ReadBytesExt::read_uN::<E>` reads N / 8 bytes
-- as `read_exact` does and takes them as an integer of byte order E.
pub record Crates : Type 0 where
  pub checksum : Bytes → ℕ
  pub checksum_lt : (bs : Bytes) → checksum bs < 2 ^ 32
  pub read_uint_le : ℕ → Cursor → Outcome (ℕ × Cursor)
  pub read_uint_le_lem :
      (n : ℕ) (c : Cursor)
      → read_uint_le n c ≡ (read_exact n c >>= λ (r : Bytes × Cursor). ok (from_le_bytes r.0, r.1))
  pub read_uint_be : ℕ → Cursor → Outcome (ℕ × Cursor)
  pub read_uint_be_lem :
      (n : ℕ) (c : Cursor)
      → read_uint_be n c ≡ (read_exact n c >>= λ (r : Bytes × Cursor). ok (from_be_bytes r.0, r.1))
