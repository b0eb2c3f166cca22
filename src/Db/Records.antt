-- ===== src/Db/Records.antt =====
-- The records of a `.db` file as the format describes them, apart from the code that writes and
-- reads them: a live record, or a tombstone that keeps the lengths of the record it replaced.
pub mod Encode
pub mod Frame
pub mod Decode
pub mod Header
pub mod File
pub mod Checksum
pub mod Maps
use peach_db.Base.{ℕ, ◌+◌, ◌<◌, ◌^◌, List, [], ◌∷◌, ◌++◌, length, replicate}
use peach_db.Base.Words.{Bytes, as_u16, as_u32, to_le_bytes}
use peach_db.Base.HashMap
use peach_db.Base.HashMap.{HashMap}
use peach_db.Cursor.{Crates}
use peach_db.Dtypes.Key
use peach_db.Dtypes.Key.{Key}
use peach_db.Dtypes.Field.{Field}
use peach_db.Dtypes.Codec.{bytes_from_field}
use peach_db.Db.WalCodec.RoundTrip.{IsKey, IsStored}
use peach_db.Db.DbEncoder.{record_magic_number}

pub data DiskRecord : Type 0 where
  live : Key → Field → DiskRecord
  dead : ℕ → ℕ → DiskRecord

abbrev pub IsRecord : DiskRecord → Type 0
IsRecord (live key field) = IsKey key × IsStored field
IsRecord (dead key_len field_len) = (key_len < 2 ^ 16) × (field_len < 2 ^ 32)

-- The checksum covers the record with its own four bytes at zero.
abbrev pub crc_input : Bytes → Bytes → Bytes
crc_input key payload =
    to_le_bytes 2 (as_u16 (length key))
    ++ (to_le_bytes 4 (as_u32 (length payload)) ++ (replicate 4 0 ++ (key ++ payload)))

abbrev pub frame : Bytes → ℕ → ℕ → ℕ → Bytes → Bytes → Bytes
frame magic key_len field_len crc key payload =
    magic
    ++ (to_le_bytes 2 key_len
        ++ (to_le_bytes 4 field_len ++ (to_le_bytes 4 crc ++ (key ++ payload))))

module _ (crates : Crates) where
  abbrev pub record_bytes : DiskRecord → Bytes
  record_bytes (live key field) =
      let payload = bytes_from_field field in
      frame record_magic_number (as_u16 (Key.len key)) (as_u32 (length payload))
        (crates.checksum (crc_input key.bytes payload)) key.bytes payload
  record_bytes (dead key_len field_len) =
      frame (replicate 4 0) key_len field_len 0 (replicate key_len 0) (replicate field_len 0)

  abbrev pub records_bytes : List DiskRecord → Bytes
  records_bytes [] = []
  records_bytes (r ∷ rs) = record_bytes r ++ records_bytes rs

-- What a record does to the map of values: the last live record of a key counts.
abbrev pub apply_record : HashMap Field → DiskRecord → HashMap Field
apply_record db (live key field) = HashMap.insert key field db
apply_record db (dead key_len field_len) = db

abbrev pub apply_records : HashMap Field → List DiskRecord → HashMap Field
apply_records db [] = db
apply_records db (r ∷ rs) = apply_records (apply_record db r) rs
