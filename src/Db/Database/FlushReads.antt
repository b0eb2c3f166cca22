-- ===== src/Db/Database/FlushReads.antt =====
-- What `Database::flush` of src/db/db.rs does to the values in memory.
use peach_db.Base.{◌≡◌, refl, sym, ap, ◌∙◌, Option, none, some, List, []}
use peach_db.Base.HashMap
use peach_db.Base.HashMap.{HashMap, key_eq}
use peach_db.Cursor.{Crates}
use peach_db.Dtypes.Key.{Key}
use peach_db.Dtypes.Field.{Field}
use peach_db.Db.DbDeleter
use peach_db.Db.DbDeleter.{DbDeleter, get_deleted_field}
use peach_db.Db.WalCodec.{WalEntry, set, delete}
use peach_db.Db.IndexCodec.{IndexEntry}
use peach_db.Db.Records.{apply_records}
use peach_db.Db.System.{System, db_id, modify, Exec, ◌>>=◌, ◌>>◌}
use peach_db.Db.FileHandler.{sync_all}
use peach_db.Db.Wal.{checkpoint, pop_uncommited_entries}
use peach_db.Db.Database.{Iteration, found, get}
use peach_db.Db.Database.Durable.{IsDurable}
use peach_db.Db.Database.Net.{
  net_value, unless_held, or_else, planned, get-replay_entries, net_entries-IsDistinct,
  get-plan_deletes, get-remove_keys,
}
use peach_db.Db.Database.Flush.{
  net_entries, plan_deletes, write_entries, update_record_count, rebuild_index, update_maps,
  flush_records, flush,
}
use peach_db.Db.Database.Keeps.{
  sync_all-fields, Keeps, Keeps-after, Keeps-fields, Keeps-then, Keeps-write_entries,
  Keeps-update_record_count, Keeps-rebuild_index, Keeps-checkpoint,
}

module _ (crates : Crates) (it : Iteration) (s : System) (durable : IsDurable crates s) where
  unfoldable pub net : HashMap WalEntry
  net = it.order WalEntry (net_entries s.entries [])

  pub net-IsDistinct : HashMap.IsDistinct net
  unfolding net
  net-IsDistinct =
      it.order_keeps WalEntry (net_entries s.entries []) (net_entries-IsDistinct s.entries [] tt)

  -- A key whose record is to be deleted holds no value.
  pub planned-unheld :
      (k : Key) (v : Option Field)
      → HashMap.get k s.fields ≡ v
      → unless_held (HashMap.get k (it.order IndexEntry (plan_deletes s.index net []))) v ≡ v
  unfolding net HashMap.get
  planned-unheld k v at_k =
      rw (it.get-order IndexEntry, get-plan_deletes k s.index [] net net-IsDistinct)
        (branch (HashMap.get k net) v (HashMap.get k (apply_records [] durable.records)) (
          sym at_k
          ∙ durable.view k
          ∙ get-replay_entries k s.entries _
          ∙ rw (it.get-order WalEntry)))
    where
      branch :
          (entry : Option WalEntry) (v held : Option Field)
          → v ≡ net_value entry held
          → unless_held (planned s.index k entry none) v ≡ v
      branch none v held e = refl
      branch (some (set key field)) v held e = refl
      branch (some (delete key)) v held e = rw e (drop (or_else (HashMap.get k s.index) none))
        where
          drop : (o : Option IndexEntry) → unless_held {V = Field} o none ≡ none
          drop none = refl
          drop (some i) = refl

  -- Whatever becomes of the system calls, every `get` returns after a `flush` of a durable database,
  -- done or failed, what it returned before.
  pub get-flush : (k : Key) → (get k (flush crates it s).1).0 ≡ (get k s).0
  unfolding get flush
  get-flush k = ap found (
      Keeps-after k v (flush_records crates it) (λ _. checkpoint) s
        (unfold flush_records pop_uncommited_entries net in records) (λ _. Keeps-checkpoint k v))
    where
      v : Option Field
      v = HashMap.get k s.fields

      plan : HashMap IndexEntry
      plan = plan_deletes s.index net []

      maps : List (Key × IndexEntry) → Exec (Unit {0})
      maps indexes = modify (update_maps crates it indexes plan)

      count : Exec (Unit {0})
      count = update_record_count it >> rebuild_index it

      Keeps-maps : (indexes : List (Key × IndexEntry)) → Keeps k v (maps indexes)
      Keeps-maps indexes t h =
          get-remove_keys k (it.order IndexEntry plan) t.fields ∙ rw h (planned-unheld k v refl)

      rest : List (Key × IndexEntry) → Exec (Unit {0})
      rest indexes = sync_all db_id >> (maps indexes >> count)

      Keeps-rest : (indexes : List (Key × IndexEntry)) → Keeps k v (rest indexes)
      Keeps-rest indexes =
          Keeps-then k v (sync_all db_id) (maps indexes >> count)
            (Keeps-fields k v (sync_all db_id) (sync_all-fields db_id))
            (Keeps-then k v (maps indexes) count (Keeps-maps indexes) (
              Keeps-then k v (update_record_count it) (rebuild_index it)
                (Keeps-update_record_count k v it) (Keeps-rebuild_index k v it)))

      records :
          HashMap.get k ((write_entries crates plan net DbDeleter.new [] >>= rest) s).1.fields ≡ v
      records =
          Keeps-after k v (write_entries crates plan net DbDeleter.new []) rest s
            (Keeps-write_entries k v crates plan net DbDeleter.new [] s refl) Keeps-rest
