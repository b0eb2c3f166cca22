-- ===== src/Db/Database/Open.antt =====
-- `Database::new`, `init` and `open` of src/db/db.rs.
use peach_db.Base.{ℕ, [], ◌∷◌, ltb, ◌==◌, length, if◌then◌else◌}
use peach_db.Base.Words.{Bytes}
use peach_db.Base.HashMap.{HashMap}
use peach_db.Error.{Outcome, err, db_name_to_long}
use peach_db.Error.{◌>>=◌ as and_then}
use peach_db.Cursor.{Crates}
use peach_db.Dtypes.Field.{Field}
use peach_db.Db.DbEncoder
use peach_db.Db.DbEncoder.{DbMeta, encode_db_header}
use peach_db.Db.DbDecoder
use peach_db.Db.DbDecoder.{decode_db_file, finish}
use peach_db.Db.IndexCodec.{IndexEntry, decode_index}
use peach_db.Db.IndexFromDb.{index_from_db}
use peach_db.Db.System.{System, db_id, index_id, Exec, lift, modify, ◌>>=◌, ◌>>◌}
use peach_db.Db.FileHandler.{raw_set_len, raw_write_all, raw_read_to_end, raw_look}
use peach_db.Db.Wal.{open_wal, pop_uncommited_entries}
use peach_db.Db.Database.{replay_entries}

abbrev pub set_maps : HashMap Field → HashMap IndexEntry → System → System
set_maps fields index s = record s { fields = fields; index = index }

-- `Database::new`: the header, and empty maps. The log's entries are not applied.
unfoldable pub new_database : Bytes → Exec (Unit {0})
new_database name = do
  raw_set_len db_id 0
  let meta : DbMeta = record { version = 1; record_count = 0; name = name }
  raw_write_all db_id (encode_db_header meta DbEncoder.new).buffer
  modify (set_maps [] [])

module _ (crates : Crates) where
  -- The `.db` file, decoded.
  unfoldable pub decode_fields : Bytes → Outcome (HashMap Field × DbMeta)
  decode_fields bytes = and_then (decode_db_file crates (DbDecoder.new bytes)) finish

  -- The index file, or the index of the `.db` file where that is empty.
  unfoldable pub load_index : Bytes → Bytes → Outcome (HashMap IndexEntry)
  load_index db_bytes [] = index_from_db crates db_bytes
  load_index db_bytes (b ∷ bytes) = decode_index crates (b ∷ bytes)

  unfoldable pub init : Exec (Unit {0})
  init = do
    db_size ← raw_look db_id
    db_bytes ← raw_read_to_end db_id
    index_size ← raw_look index_id
    index_bytes ← raw_read_to_end index_id
    (fields, meta) ← lift (decode_fields db_bytes)
    index ← lift (load_index db_bytes index_bytes)
    entries ← pop_uncommited_entries
    modify (set_maps (replay_entries entries fields) index)

  -- `match (db_is_new, index_is_new)`
  unfoldable pub new_or_init : Bytes → ℕ → Exec (Unit {0})
  new_or_init name db_size = if db_size == 0 then new_database name else init

  -- A missing file is created empty; each file is opened and its size looked at.
  unfoldable pub open_files : Bytes → Exec (Unit {0})
  open_files name = do
    opened_db ← raw_look db_id
    opened_index ← raw_look index_id
    db_size ← raw_look db_id
    index_size ← raw_look index_id
    open_wal crates
    new_or_init name db_size

  unfoldable pub open_database : Bytes → Exec (Unit {0})
  open_database name = if ltb 64 (length name) then lift (err db_name_to_long) else open_files name
