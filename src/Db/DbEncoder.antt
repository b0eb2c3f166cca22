-- ===== src/Db/DbEncoder.antt =====
-- `DBEncoder` and `encode` of src/db/codec.rs: the records and the header of a `.db` file.
use peach_db.Base.{ℕ, ◌+◌, [], ◌∷◌, ◌++◌, leb, length, take, drop, replicate, if◌then◌else◌}
use Prim.Native.Nat.{min}
use peach_db.Base.Words.{Bytes, as_u16, as_u32, to_le_bytes}
use peach_db.Base.HashMap.{HashMap}
use peach_db.Error.{Outcome, ok, panic, ◌>>=◌}
use peach_db.Cursor.{Crates}
use peach_db.Dtypes.Key
use peach_db.Dtypes.Key.{Key, key_len_byte_size}
use peach_db.Dtypes.Field.{Field}
use peach_db.Dtypes.Codec.{bytes_from_field, field_len_byte_size}

-- `DbMeta` of src/db/mod.rs; the name by its UTF-8 bytes.
pub record DbMeta : Type 0 where
  pub version : ℕ
  pub record_count : ℕ
  pub name : Bytes

abbrev pub record_magic_number_byte_size : ℕ
record_magic_number_byte_size = 4

abbrev pub record_magic_number : Bytes
record_magic_number = b'R' ∷ b'E' ∷ b'C' ∷ 0x01 ∷ []

abbrev pub crc_offset : ℕ
crc_offset = record_magic_number_byte_size + key_len_byte_size + field_len_byte_size

abbrev pub db_header_key : Bytes
db_header_key = b'H' ∷ b'e' ∷ b'a' ∷ b'd' ∷ b'e' ∷ b'r' ∷ b'-' ∷ b'-' ∷ []

abbrev pub db_header_magic : ℕ
db_header_magic = 0x50656163684442

abbrev pub db_version_key : Bytes
db_version_key = b'V' ∷ b'e' ∷ b'r' ∷ b's' ∷ b'i' ∷ b'o' ∷ b'n' ∷ b'-' ∷ []

abbrev pub db_version : ℕ
db_version = 1

abbrev pub db_version_decimal : ℕ
db_version_decimal = 0

abbrev pub db_record_count_key : Bytes
db_record_count_key = b'R' ∷ b'e' ∷ b'c' ∷ b'C' ∷ b'o' ∷ b'u' ∷ b'n' ∷ b't' ∷ []

abbrev pub db_name_key : Bytes
db_name_key = b'D' ∷ b'B' ∷ b' ' ∷ b'N' ∷ b'a' ∷ b'm' ∷ b'e' ∷ b'-' ∷ []

abbrev pub crc_byte_size : ℕ
crc_byte_size = 4

abbrev pub db_name_len : ℕ
db_name_len = 64

pub record DbEncoder : Type 0 where
  pub buffer : Bytes
  pub field_start_position : ℕ

abbrev pub new : DbEncoder
new = record { buffer = []; field_start_position = 0 }

-- The capacity has no effect on what the buffer holds.
abbrev pub with_capacity : ℕ → DbEncoder
with_capacity capacity = record { buffer = []; field_start_position = 0 }

abbrev pub reset : DbEncoder → DbEncoder
reset e = record { buffer = []; field_start_position = 0 }

abbrev pub finish : DbEncoder → Bytes
finish e = e.buffer

-- Also `buffer.push` and `buffer.extend_from_slice`.
abbrev pub write : Bytes → DbEncoder → DbEncoder
write bytes e = record e { buffer = e.buffer ++ bytes }

abbrev pub encode_magic_number : DbEncoder → DbEncoder
encode_magic_number e =
    write record_magic_number (record e { field_start_position = length e.buffer })

abbrev pub encode_key_len_u16 : ℕ → DbEncoder → DbEncoder
encode_key_len_u16 len e = write (to_le_bytes 2 (as_u16 len)) e

abbrev pub encode_field_len_u32 : ℕ → DbEncoder → DbEncoder
encode_field_len_u32 len e = write (to_le_bytes 4 (as_u32 len)) e

abbrev pub encode_key : Key → DbEncoder → DbEncoder
encode_key key e = write (Key.as_bytes key) e

abbrev pub encode_crc_placeholder : DbEncoder → DbEncoder
encode_crc_placeholder e = write (replicate 4 0) e

-- `buffer[offset..offset + bytes.len()].copy_from_slice(bytes)`
unfoldable pub overwrite : ℕ → Bytes → Bytes → Outcome Bytes
overwrite offset bytes buffer =
    if leb (offset + length bytes) (length buffer)
    then ok (take offset buffer ++ (bytes ++ drop (offset + length bytes) buffer))
    else panic

abbrev pub encode_db_name : Bytes → DbEncoder → DbEncoder
encode_db_name name e =
    let copy_len = min (length name) db_name_len in
    write (take copy_len name ++ drop copy_len (replicate db_name_len 0)) e

unfoldable pub encode_db_header : DbMeta → DbEncoder → DbEncoder
encode_db_header meta e = encode_db_name meta.name (
    write db_name_key (
      write (to_le_bytes 8 meta.record_count) (
        write db_record_count_key (
          write (db_version_decimal ∷ []) (
            write (db_version ∷ []) (
              write db_version_key
                (write (to_le_bytes 8 db_header_magic) (write db_header_key e))))))))

module _ (crates : Crates) where
  unfoldable pub encode_crc : DbEncoder → Outcome DbEncoder
  encode_crc e = do
    let checksum : ℕ = crates.checksum (drop (e.field_start_position + 4) e.buffer)
    buffer ← overwrite (e.field_start_position + crc_offset) (to_le_bytes 4 checksum) e.buffer
    ok (record e { buffer = buffer })

  unfoldable pub encode_db_key_field_pair : Key → Field → DbEncoder → Outcome DbEncoder
  encode_db_key_field_pair key field e =
      let payload = bytes_from_field field in
      encode_crc (
        write payload (
          encode_key key (
            encode_crc_placeholder (
              encode_field_len_u32 (length payload)
                (encode_key_len_u16 (Key.len key) (encode_magic_number e))))))

  unfoldable pub encode_pairs : HashMap Field → DbEncoder → Outcome DbEncoder
  encode_pairs [] e = ok e
  encode_pairs ((key, field) ∷ fields) e = do
    e' ← encode_db_key_field_pair key field e
    encode_pairs fields e'

  -- The list gives the order in which the map is iterated.
  unfoldable pub encode_db_file : HashMap Field → DbMeta → DbEncoder → Outcome DbEncoder
  unfolding encode_pairs
  encode_db_file fields meta e = encode_pairs fields (encode_db_header meta e)

  unfoldable pub encode : Key → Field → Outcome Bytes
  encode key field =
      let payload = bytes_from_field field in
      let capacity =
        record_magic_number_byte_size
        + key_len_byte_size
        + field_len_byte_size
        + crc_byte_size
        + Key.len key
        + length payload in
      do e ← encode_db_key_field_pair key field (with_capacity capacity); ok (finish e)
