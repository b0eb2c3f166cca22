-- ===== src/Db/Database/Count.antt =====
-- `Database::update_record_count` of src/db/db.rs: where the count is written.
use peach_db.Base.{ℕ, ◌≡◌, refl, sym, ap, ◌∙◌, [], ◌∷◌, ◌++◌, length}
use peach_db.Base.Words.{Bytes, as_u64, to_le_bytes, length-to_le_bytes}
use peach_db.Base.HashMap
use peach_db.Error.{ok}
use peach_db.Db.Records.Header.{header_bytes, name_field}
use peach_db.Db.DbEncoder.{
  db_header_key, db_header_magic, db_version_key, db_version, db_version_decimal,
  db_record_count_key, db_name_key,
}
use peach_db.Db.System.{System}
use peach_db.Db.FileHandler.{write_at, write_bytes}
use peach_db.Db.FileHandler.Laws.{write_bytes-inside}
use peach_db.Db.Database.{Iteration}
use peach_db.Db.Database.Flush.{update_record_count}
use mathlib.Core.List.{append_assoc}

-- What stands before the count.
abbrev front : Bytes
front =
    db_header_key
    ++ (to_le_bytes 8 db_header_magic
        ++ (db_version_key ++ (db_version ∷ db_version_decimal ∷ db_record_count_key)))

length-front : length front ≡ 34
unfolding to_le_bytes
length-front = refl

header_bytes-front :
    (n : ℕ) (name rest : Bytes)
    → header_bytes n name ++ rest
      ≡ front ++ (to_le_bytes 8 n ++ (db_name_key ++ (name_field name ++ rest)))
header_bytes-front n name rest = simp append_assoc

write_bytes-header_bytes :
    (count held : ℕ) (name rest : Bytes)
    → write_bytes 34 (to_le_bytes 8 count) (header_bytes held name ++ rest)
      ≡ header_bytes count name ++ rest
write_bytes-header_bytes count held name rest =
    ap (λ file. write_bytes 34 (to_le_bytes 8 count) file) (header_bytes-front held name rest)
    ∙ write_bytes-inside 34 front (to_le_bytes 8 count) (to_le_bytes 8 held)
        (db_name_key ++ (name_field name ++ rest)) length-front
        (length-to_le_bytes 8 count ∙ sym (length-to_le_bytes 8 held))
    ∙ sym (header_bytes-front count name rest)

-- Without faults, on a file that starts with a header, the count of the header becomes the number of
-- the keys in memory, and nothing else of the file, or of the state, changes.
pub update_record_count-header_bytes :
    (it : Iteration) (s : System) (held : ℕ) (name rest : Bytes)
    → s.fates ≡ []
    → s.db_file ≡ header_bytes held name ++ rest
    → update_record_count it s
      ≡ (ok tt, record s { db_file = header_bytes (as_u64 (HashMap.len s.fields)) name ++ rest })
unfolding update_record_count write_at
update_record_count-header_bytes it s held name rest calm file =
    rw (calm, file, write_bytes-header_bytes (as_u64 (HashMap.len s.fields)) held name rest)
