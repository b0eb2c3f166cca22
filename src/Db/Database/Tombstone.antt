-- ===== src/Db/Database/Tombstone.antt =====
-- The tombstone that `Database::flush` of src/db/db.rs writes for a deleted key.
use peach_db.Base.{
  ℕ, ◌+◌, ◌≡◌, refl, sym, ◌∙◌, some, [], ◌++◌, arith, length, length-append, replicate,
  length-replicate,
}
use peach_db.Base.Words.{Bytes, as_u16, as_u32, to_le_bytes, length-to_le_bytes}
use peach_db.Error.{ok}
use peach_db.Cursor.{Crates}
use peach_db.Dtypes.Key
use peach_db.Dtypes.Key.{Key}
use peach_db.Dtypes.Field.{Field}
use peach_db.Dtypes.Codec.{bytes_from_field}
use peach_db.Db.DbDeleter
use peach_db.Db.DbDeleter.{get_deleted_field, get_deleted_field-dead}
use peach_db.Db.Records.{IsRecord, live, dead, frame, record_bytes, crc_input}
use peach_db.Db.DbEncoder.{record_magic_number}
use peach_db.Db.System.{System}
use peach_db.Db.FileHandler.{write_at}
use peach_db.Db.FileHandler.Laws.{write_bytes-inside}
use peach_db.Db.Database.Flush.{index_entry, write_tombstone}
use native.Mathlib.Nat.{mod-eq_of_lt}

pub length-frame :
    (magic : Bytes) (key_len field_len crc : ℕ) (key payload : Bytes)
    → length (frame magic key_len field_len crc key payload)
      ≡ length magic + 10 + length key + length payload
length-frame magic key_len field_len crc key payload = omega (
  arith,
  length-append magic (
      to_le_bytes 2 key_len
      ++ (to_le_bytes 4 field_len ++ (to_le_bytes 4 crc ++ (key ++ payload)))),
  length-append (to_le_bytes 2 key_len)
      (to_le_bytes 4 field_len ++ (to_le_bytes 4 crc ++ (key ++ payload))),
  length-append (to_le_bytes 4 field_len) (to_le_bytes 4 crc ++ (key ++ payload)),
  length-append (to_le_bytes 4 crc) (key ++ payload),
  length-append key payload,
  length-to_le_bytes 2 key_len,
  length-to_le_bytes 4 field_len,
  length-to_le_bytes 4 crc,
)

module _ (crates : Crates) (key : Key) (field : Field) where
  pub same_length :
      IsRecord (live key field)
      → length (
          record_bytes crates
            (dead (as_u16 (Key.len key)) (as_u32 (length (bytes_from_field field)))))
        ≡ length (record_bytes crates (live key field))
  same_length (short, (valid, small)) =
      length-frame (replicate 4 0) key_len field_len 0 (replicate key_len 0) (replicate field_len 0)
      ∙ omega (
        arith,
        length-replicate {A = ℕ} key_len 0,
        length-replicate {A = ℕ} field_len 0,
        mod-eq_of_lt short,
        mod-eq_of_lt small,
      )
      ∙ sym (
          length-frame record_magic_number key_len field_len
            (crates.checksum (crc_input key.bytes (bytes_from_field field))) key.bytes
            (bytes_from_field field))
    where
      key_len : ℕ
      key_len = as_u16 (Key.len key)

      field_len : ℕ
      field_len = as_u32 (length (bytes_from_field field))

  -- A tombstone that is written without a fault, at the offset and with the lengths that the index
  -- has of a well-formed live record, turns that record into a deleted one, leaves the rest of the
  -- file and of the state, and resets the deleter.
  pub write_tombstone-record_bytes :
      (s : System) (before after : Bytes)
      → IsRecord (live key field)
      → s.fates ≡ []
      → s.db_file ≡ before ++ (record_bytes crates (live key field) ++ after)
      → write_tombstone (some (index_entry (length before) key field)) DbDeleter.new s ≡ (
        ok DbDeleter.new,
        record s {
          db_file =
              before
              ++ (record_bytes crates
                    (dead (as_u16 (Key.len key)) (as_u32 (length (bytes_from_field field))))
                  ++ after);
        },
      )
  unfolding write_tombstone write_at
  write_tombstone-record_bytes s before after valid calm file = rw (
    calm,
    file,
    get_deleted_field-dead crates (as_u16 (Key.len key)) (as_u32 (length (bytes_from_field field))),
    write_bytes-inside (length before) before
        (record_bytes crates
          (dead (as_u16 (Key.len key)) (as_u32 (length (bytes_from_field field)))))
        (record_bytes crates (live key field)) after refl (same_length valid),
  )
