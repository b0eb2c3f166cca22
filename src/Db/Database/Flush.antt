-- ===== src/Db/Database/Flush.antt =====
-- `Database::flush`, `update_record_count` and `rebuild_index` of src/db/db.rs.
use peach_db.Base.{ℕ, Option, none, some, List, [], ◌∷◌, ◌++◌, length}
use peach_db.Base.Words.{as_u16, as_u32, as_u64, to_le_bytes}
use peach_db.Base.HashMap
use peach_db.Base.HashMap.{HashMap}
use peach_db.Cursor.{Crates}
use peach_db.Dtypes.Key
use peach_db.Dtypes.Key.{Key}
use peach_db.Dtypes.Field.{Field}
use peach_db.Dtypes.Codec.{bytes_from_field}
use peach_db.Db.DbEncoder.{encode}
use peach_db.Db.DbDeleter
use peach_db.Db.DbDeleter.{DbDeleter, get_deleted_field}
use peach_db.Db.WalCodec.{WalEntry, set, delete}
use peach_db.Db.IndexCodec.{IndexEntry, encode_index_file, encoder_bytes, new_encoder}
use peach_db.Db.System.{System, db_id, index_id, Exec, pure, lift, gets, modify, ◌>>=◌, ◌>>◌}
use peach_db.Db.FileHandler.{write_at, append, set_len, sync_all}
use peach_db.Db.Wal.{checkpoint, pop_uncommited_entries}
use peach_db.Db.Database.{Iteration, record_count_offset}

abbrev pub entry_key : WalEntry → Key
entry_key (set key field) = key
entry_key (delete key) = key

-- `net`: the last entry of each key.
unfoldable pub net_entries : List WalEntry → HashMap WalEntry → HashMap WalEntry
net_entries [] net = net
net_entries (entry ∷ entries) net = net_entries entries (HashMap.insert (entry_key entry) entry net)

-- The match on `state.index.get(key)` in the loop that fills `delete_plan`.
abbrev pub plan_if_indexed : Key → Option IndexEntry → HashMap IndexEntry → HashMap IndexEntry
plan_if_indexed key none plan = plan
plan_if_indexed key (some e) plan = HashMap.insert key e plan

abbrev pub plan_entry :
    HashMap IndexEntry → Key → WalEntry → HashMap IndexEntry → HashMap IndexEntry
plan_entry index key (set k field) plan = plan
plan_entry index key (delete k) plan = plan_if_indexed key (HashMap.get key index) plan

unfoldable pub plan_deletes :
    HashMap IndexEntry → HashMap WalEntry → HashMap IndexEntry → HashMap IndexEntry
plan_deletes index [] plan = plan
plan_deletes index ((key, entry) ∷ net) plan =
    plan_deletes index net (plan_entry index key entry plan)

-- The entry that `indexes` gets for a record at `offset`.
abbrev pub index_entry : ℕ → Key → Field → IndexEntry
index_entry offset key field = record {
  offset = offset;
  key_len = as_u16 (Key.len key);
  field_len = as_u32 (length (bytes_from_field field));
}

-- The match on `delete_plan.get(&key)`: a tombstone over the record, and the deleter reset.
unfoldable pub write_tombstone : Option IndexEntry → DbDeleter → Exec DbDeleter
write_tombstone none deleter = pure deleter
write_tombstone (some e) deleter = do
  let deleted : DbDeleter =
      get_deleted_field
        (DbDeleter.set_field_len e.field_len (DbDeleter.set_key_len e.key_len deleter))
  write_at db_id e.offset deleted.buffer
  pure (DbDeleter.reset deleted)

module _ (crates : Crates) where
  unfoldable pub append_record : Key → Field → Exec (Key × IndexEntry)
  append_record key field = do
    bytes ← lift (encode crates key field)
    record_start ← append db_id bytes
    pure (key, index_entry record_start key field)

  -- `for entry in net.into_values()`
  unfoldable pub write_entries :
      HashMap IndexEntry
      → HashMap WalEntry
      → DbDeleter
      → List (Key × IndexEntry)
      → Exec (List (Key × IndexEntry))
  write_entries plan [] deleter indexes = pure indexes
  write_entries plan ((k, set key field) ∷ net) deleter indexes = do
    e ← append_record key field
    write_entries plan net deleter (indexes ++ e ∷ [])
  write_entries plan ((k, delete key) ∷ net) deleter indexes = do
    deleter' ← write_tombstone (HashMap.get key plan) deleter
    write_entries plan net deleter' indexes

-- The new entries go into the index, the deleted keys out of both maps.
unfoldable pub add_indexes : List (Key × IndexEntry) → HashMap IndexEntry → HashMap IndexEntry
add_indexes [] index = index
add_indexes ((k, i) ∷ indexes) index = add_indexes indexes (HashMap.insert k i index)

unfoldable pub remove_all {ℓ} : {V : Type ℓ} → List Key → HashMap V → HashMap V
remove_all [] m = m
remove_all (k ∷ ks) m = remove_all ks (HashMap.remove k m)

module _ (it : Iteration) where
  unfoldable pub update_record_count : Exec (Unit {0})
  update_record_count = do
    count ← gets (λ s. as_u64 (HashMap.len s.fields))
    write_at db_id record_count_offset (to_le_bytes 8 count)

  unfoldable pub rebuild_index : Exec (Unit {0})
  rebuild_index = do
    index ← gets (λ s. s.index)
    set_len index_id 0
    write_at index_id 0 (encoder_bytes (encode_index_file (it.order IndexEntry index) new_encoder))
    sync_all index_id

module _ (crates : Crates) (it : Iteration) where
  abbrev pub update_maps : List (Key × IndexEntry) → HashMap IndexEntry → System → System
  update_maps indexes plan s =
      let gone = HashMap.keys (it.order IndexEntry plan) in
      record s {
        index = remove_all gone (add_indexes indexes s.index);
        fields = remove_all gone s.fields;
      }

  -- All of `flush` before its checkpoint. No lock is held between the steps.
  unfoldable pub flush_records : Exec (Unit {0})
  flush_records = do
    entries ← pop_uncommited_entries
    let net : HashMap WalEntry = it.order WalEntry (net_entries entries [])
    delete_plan ← gets (λ s. plan_deletes s.index net [])
    indexes ← write_entries crates delete_plan net DbDeleter.new []
    sync_all db_id
    modify (update_maps indexes delete_plan)
    update_record_count it
    rebuild_index it

  unfoldable pub flush : Exec (Unit {0})
  flush = do flush_records; checkpoint
