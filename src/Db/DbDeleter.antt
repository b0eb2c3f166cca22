-- ===== src/Db/DbDeleter.antt =====
-- `DBDeleter` of src/db/codec.rs: the bytes of a tombstone.
use peach_db.Base.{ℕ, ◌≡◌, [], ◌++◌, replicate}
use peach_db.Base.Words.{Bytes, to_le_bytes}
use peach_db.Cursor.{Crates}
use peach_db.Db.Records.{dead, record_bytes}
use mathlib.Core.List.{append_assoc}

pub record DbDeleter : Type 0 where
  pub buffer : Bytes
  pub key_len : ℕ
  pub field_len : ℕ

abbrev pub new : DbDeleter
new = record { buffer = []; key_len = 0; field_len = 0 }

abbrev pub set_key_len : ℕ → DbDeleter → DbDeleter
set_key_len len d = record d { key_len = len }

abbrev pub set_field_len : ℕ → DbDeleter → DbDeleter
set_field_len len d = record d { field_len = len }

abbrev pub reset : DbDeleter → DbDeleter
reset d = record { buffer = []; key_len = 0; field_len = 0 }

abbrev pub write : Bytes → DbDeleter → DbDeleter
write bytes d = record d { buffer = d.buffer ++ bytes }

-- The magic number and the checksum are zero; the lengths are kept.
unfoldable pub get_deleted_field : DbDeleter → DbDeleter
get_deleted_field d = write (replicate d.field_len 0) (
    write (replicate d.key_len 0) (
      write (replicate 4 0) (
        write (to_le_bytes 4 d.field_len)
          (write (to_le_bytes 2 d.key_len) (write (replicate 4 0) d)))))

-- For any two lengths a deleter without bytes of its own writes the tombstone that the format describes.
pub get_deleted_field-dead :
    (crates : Crates) (key_len field_len : ℕ)
    → (get_deleted_field (set_field_len field_len (set_key_len key_len new))).buffer
      ≡ record_bytes crates (dead key_len field_len)
unfolding get_deleted_field to_le_bytes
get_deleted_field-dead crates key_len field_len = simp append_assoc
