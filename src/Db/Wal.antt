-- ===== src/Db/Wal.antt =====
-- `Wal` of src/db/wal.rs: the log on disk and its entries in memory.
use peach_db.Base.{List, [], ◌∷◌, ◌++◌}
use peach_db.Base.Words.{Bytes}
use peach_db.Cursor.{Crates}
use peach_db.Db.WalCodec.{WalEntry, new_encoder, encode_wal_entry, encoder_bytes, decode_wal}
use peach_db.Db.System.{System, wal_id, Exec, lift, gets, modify, ◌>>=◌, ◌>>◌}
use peach_db.Db.FileHandler.{read_all, append, set_len, sync_all, raw_look}

abbrev pub push_entry : WalEntry → System → System
push_entry entry s = record s { entries = s.entries ++ entry ∷ [] }

abbrev pub set_entries : List WalEntry → System → System
set_entries entries s = record s { entries = entries }

unfoldable pub append_entry : WalEntry → Exec (Unit {0})
append_entry entry = do
  let bytes : Bytes = encoder_bytes (encode_wal_entry entry new_encoder)
  position ← append wal_id bytes
  modify (push_entry entry)
  sync_all wal_id

unfoldable pub replay : Crates → Exec (Unit {0})
replay crates = do
  bytes ← read_all wal_id
  entries ← lift (decode_wal crates bytes)
  modify (set_entries entries)

-- Opening the file, then the replay.
unfoldable pub open_wal : Crates → Exec (Unit {0})
open_wal crates = do size ← raw_look wal_id; modify (set_entries []); replay crates

-- The entries in memory go first.
unfoldable pub checkpoint : Exec (Unit {0})
checkpoint = do modify (set_entries []); set_len wal_id 0; sync_all wal_id

unfoldable pub pop_uncommited_entries : Exec (List WalEntry)
pop_uncommited_entries = gets (λ s. s.entries)
