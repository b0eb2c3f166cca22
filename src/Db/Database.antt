-- ===== src/Db/Database.antt =====
-- `Database` of src/db/db.rs: the state, `get`, `set`, `delete` and `keys`.
pub mod Open
pub mod Flush
pub mod Net
pub mod Keeps
pub mod FlushReads
pub mod Located
pub mod Killed
pub mod Written
pub mod Placed
pub mod FlushSteps
pub mod FlushDone
pub mod Stale
pub mod LostSet
pub mod Race
pub mod Loads
pub mod FlushDurable
pub mod ScanRecord
pub mod Scan
pub mod Count
pub mod Tombstone
pub mod Memory
pub mod Durable
pub mod Reopen
pub mod Fresh
pub mod History
pub mod Unflushed
pub mod Ends
pub mod Refused
pub mod Lives
pub mod Room
pub mod Events
use peach_db.Base.{
  ℕ, ◌+◌, ◌≡◌, Option, none, some, List, [], ◌∷◌, ◌++◌, ltb, ◌==◌, length, map, if◌then◌else◌,
}
use peach_db.Base.Words.{Bytes, as_u16, as_u32, as_u64, to_le_bytes}
use peach_db.Base.HashMap
use peach_db.Base.HashMap.{HashMap}
use peach_db.Error.{Outcome, ok, err, key_not_found, db_name_to_long}
use peach_db.Cursor.{Crates}
use peach_db.Dtypes.Key
use peach_db.Dtypes.Key.{Key}
use peach_db.Dtypes.Field.{Field}
use peach_db.Dtypes.Codec.{bytes_from_field}
use peach_db.Db.DbEncoder
use peach_db.Db.DbEncoder.{DbMeta, encode_db_header, encode}
use peach_db.Db.DbDecoder
use peach_db.Db.DbDecoder.{decode_db_file, finish}
use peach_db.Db.DbDeleter
use peach_db.Db.DbDeleter.{DbDeleter, get_deleted_field}
use peach_db.Db.WalCodec.{WalEntry, set, delete}
use peach_db.Db.IndexCodec.{IndexEntry, encode_index_file, decode_index, new_encoder}
use peach_db.Db.IndexFromDb.{index_from_db}
use peach_db.Db.System.{System, db_id, index_id, Exec, pure, lift, gets, modify, ◌>>=◌, ◌>>◌}
use peach_db.Db.FileHandler.{
  write_at, append, set_len, sync_all, raw_set_len, raw_write_all, raw_read_to_end, raw_look,
}
use peach_db.Db.Wal.{append_entry, open_wal, checkpoint, pop_uncommited_entries}

abbrev pub record_count_offset : ℕ
record_count_offset = 34

-- The order in which a map is iterated is the standard library's affair: a map with the same
-- entries, for every map.
pub record Iteration : Type 1 where
  pub order : (V : Type 0) → HashMap V → HashMap V
  pub get-order :
      (V : Type 0) (m : HashMap V) (k : Key) → HashMap.get k (order V m) ≡ HashMap.get k m
  pub order_keeps :
      (V : Type 0) (m : HashMap V) → HashMap.IsDistinct m → HashMap.IsDistinct (order V m)

-- The match on `state.fields.get(key)`.
abbrev pub found : Option Field → Outcome Field
found (some field) = ok field
found none = err key_not_found

unfoldable pub get : Key → Exec Field
get key s = (found (HashMap.get key s.fields), s)

abbrev pub put_field : Key → Field → System → System
put_field key field s = record s { fields = HashMap.insert key field s.fields }

abbrev pub drop_field : Key → System → System
drop_field key s = record s { fields = HashMap.remove key s.fields }

unfoldable pub set_key : Key → Field → Exec (Unit {0})
set_key key field = do append_entry (set key field); modify (put_field key field)

unfoldable pub delete_key : Key → Exec (Unit {0})
delete_key key = do append_entry (delete key); modify (drop_field key)

unfoldable pub keys : Iteration → Exec (List Key)
keys it = gets (λ s. HashMap.keys (it.order Field s.fields))

-- The loop of `init` over the entries of the log.
unfoldable pub replay_entries : List WalEntry → HashMap Field → HashMap Field
replay_entries [] fields = fields
replay_entries (set key field ∷ entries) fields =
    replay_entries entries (HashMap.insert key field fields)
replay_entries (delete key ∷ entries) fields = replay_entries entries (HashMap.remove key fields)
