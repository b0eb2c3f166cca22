-- ===== src/Db/Database/LostSet.antt =====
-- A `set` of src/db/db.rs between the copy of the log and the checkpoint of a `flush`: no lock is held
-- there.
use peach_db.Base.{◌≤◌, ◌<◌, ◌^◌, ◌≡◌, sym, ap, ◌∙◌, some, [], length}
use peach_db.Base.HashMap
use peach_db.Base.HashMap.{key_eq_refl}
use peach_db.Base.HashMap.Laws.{get-insert}
use peach_db.Base.Words.{Bytes}
use peach_db.Error.{ok}
use peach_db.Cursor.{Crates}
use peach_db.Dtypes.Key.{Key}
use peach_db.Dtypes.Field.{Field}
use peach_db.Db.WalCodec.{set, delete}
use peach_db.Db.System.{System}
use peach_db.Db.Wal.{checkpoint}
use peach_db.Db.Database.{Iteration, get, set_key}
use peach_db.Db.Database.Open.{open_database}
use peach_db.Db.Database.Durable.{IsDurable, logged, append_entry-logged}
use peach_db.Db.Database.Reopen.{crash}
use peach_db.Db.Database.Flush.{net_entries, flush_records, flush}
use peach_db.Db.Database.Located.{lives}
use peach_db.Db.Database.FlushSteps.{checkpoint-empty}
use peach_db.Db.Database.FlushDone.{IsIndexed, flushed, flush_records-flushed, flush-flushed}
use peach_db.Db.Database.FlushDurable.{get-flush-crash}

module _ (crates : Crates) (it : Iteration) (s : System) (durable : IsDurable crates s)
    (indexed : IsIndexed crates s durable) (calm : s.fates ≡ [])
    (once : (k : Key)
      → HashMap.get k (net_entries s.entries []) ≡ some (delete k)
      → lives k durable.records ≤ 1)
    (near : length (flush crates it s).1.db_file < 2 ^ 64) (key : Key) (field : Field) where
  -- The states behind the records of the flush, the `set`, and the checkpoint.
  abbrev pub after_records : System
  after_records = (flush_records crates it s).1

  abbrev pub after_set : System
  after_set = (set_key key field after_records).1

  abbrev pub after_checkpoint : System
  after_checkpoint = (checkpoint after_set).1

  abbrev before_set : System
  before_set = record (flushed crates it s durable indexed calm once) {
    wal_file = s.wal_file;
    entries = s.entries;
  }

  abbrev behind_set : System
  behind_set = record (logged (set key field) before_set) {
    fields = HashMap.insert key field before_set.fields;
  }

  set_key-behind : set_key key field before_set ≡ (ok tt, behind_set)
  unfolding set_key
  set_key-behind = rw (append_entry-logged (set key field) before_set calm)

  abbrev behind_checkpoint : System
  behind_checkpoint = record behind_set { entries = []; wal_file = [] }

  at_records : flush_records crates it s ≡ (ok tt, before_set)
  at_records = flush_records-flushed crates it s durable indexed calm once

  at_set : set_key key field after_records ≡ (ok tt, behind_set)
  at_set = ap (λ r. set_key key field r.1) at_records ∙ set_key-behind

  at_checkpoint : checkpoint after_set ≡ (ok tt, behind_checkpoint)
  at_checkpoint = ap (λ r. checkpoint r.1) at_set ∙ checkpoint-empty behind_set calm

  held : (get key behind_checkpoint).0 ≡ ok field
  unfolding get
  held = rw (get-insert key key field before_set.fields, key_eq_refl key)

  -- Where every key that the log deletes in the end has at most one live record, and the `.db` file
  -- stays shorter than 2 ^ 64 bytes, a flush without faults of a durable database whose index is
  -- right, with a `set` behind its records and before its checkpoint: every step succeeds, and `get`
  -- returns the new value. But after a crash the files open under any name of at most 64 bytes, and
  -- every `get`, that of the key included, returns what it returned before the flush and the `set`.
  pub get_lost :
      (name : Bytes)
      → length name ≤ 64
      → ((flush_records crates it s).0 ≡ ok tt)
        × ((set_key key field after_records).0 ≡ ok tt)
        × ((checkpoint after_set).0 ≡ ok tt)
        × ((get key after_checkpoint).0 ≡ ok field)
        × ((open_database crates name (crash after_checkpoint)).0 ≡ ok tt)
        × ((k : Key)
            → (get k (open_database crates name (crash after_checkpoint)).1).0 ≡ (get k s).0)
  get_lost name short =
      let (done, opened, reads) =
        get-flush-crash crates it s durable indexed calm once name near short in
      let same = flush-flushed crates it s durable indexed calm once in
      (
        ap (λ r. r.0) at_records,
        ap (λ r. r.0) at_set,
        ap (λ r. r.0) at_checkpoint,
        ap (λ r. (get key r.1).0) at_checkpoint ∙ held,
        ap (λ r. (open_database crates name (crash r.1)).0) at_checkpoint
            ∙ ap (λ r. (open_database crates name (crash r.1)).0) (sym same)
            ∙ opened,
        λ k.
            ap (λ r. (get k (open_database crates name (crash r.1)).1).0) at_checkpoint
            ∙ ap (λ r. (get k (open_database crates name (crash r.1)).1).0) (sym same)
            ∙ reads k,
      )
