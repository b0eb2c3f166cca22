-- ===== src/Db/Database/FlushDone.antt =====
-- `Database::flush` of src/db/db.rs without faults: the files and the maps that it leaves.
use peach_db.Base.{
  ◌+◌, ◌≤◌, ◌≡◌, refl, sym, ap, ◌∙◌, Option, none, some, List, [], ◌++◌, arith, All, length,
  length-append,
}
use peach_db.Base.Words.{Bytes, as_u64}
use peach_db.Base.HashMap
use peach_db.Base.HashMap.{HashMap}
use peach_db.Base.HashMap.Entries.{get-All, All-get}
use peach_db.Error.{ok}
use peach_db.Cursor.{Crates}
use peach_db.Dtypes.Key.{Key}
use peach_db.Dtypes.Field.{Field}
use peach_db.Db.DbDeleter
use peach_db.Db.WalCodec.{WalEntry, set, delete}
use peach_db.Db.IndexCodec.{IndexEntry}
use peach_db.Db.IndexCodec.RoundTrip.{index_bytes}
use peach_db.Db.Records.{DiskRecord, records_bytes}
use peach_db.Db.Records.Header.{header_bytes, length-header_bytes}
use peach_db.Db.System.{System}
use peach_db.Db.Database.{Iteration}
use peach_db.Db.Database.Durable.{IsDurable}
use peach_db.Db.Database.Net.{or_else, planned, get-plan_deletes}
use peach_db.Db.Database.Flush.{
  flush_records, plan_deletes, write_entries, add_indexes, remove_all, net_entries, flush,
}
use peach_db.Db.Database.FlushReads.{net, net-IsDistinct}
use peach_db.Db.Database.Located.{lives, locate, sizes, length-records_bytes}
use peach_db.Db.Database.Written.{written, collected, IsNet, IsPlanned, write_entries-written}
use peach_db.Db.Database.Placed.{net_entries-IsNet}
use peach_db.Db.Database.FlushSteps.{flush_records-run, flush-swept}

-- The index has each key where its last live record stands, in memory and in what the files load.
pub record IsIndexed (crates : Crates) (s : System) (durable : IsDurable crates s) : Type 0 where
  pub distinct : HashMap.IsDistinct s.index
  pub located : (k : Key) → HashMap.get k s.index ≡ locate k 114 durable.records none
  pub loaded_distinct : HashMap.IsDistinct durable.loaded
  pub loaded : (k : Key) → HashMap.get k durable.loaded ≡ locate k 114 durable.records none

module _ (crates : Crates) (it : Iteration) (s : System) (durable : IsDurable crates s)
    (indexed : IsIndexed crates s durable) (calm : s.fates ≡ [])
    (once : (k : Key)
      → HashMap.get k (net_entries s.entries []) ≡ some (delete k)
      → lives k durable.records ≤ 1) where
  abbrev pub log : HashMap WalEntry
  log = net crates it s durable

  abbrev plan : HashMap IndexEntry
  plan = plan_deletes s.index log []

  abbrev gone : List Key
  gone = HashMap.keys (it.order IndexEntry plan)

  abbrev pub records : List DiskRecord
  records = written log durable.records

  abbrev pub index : HashMap IndexEntry
  index = remove_all gone (add_indexes (collected log (114 + sizes durable.records)) s.index)

  abbrev pub fields : HashMap Field
  fields = remove_all gone s.fields

  -- The state that a flush leaves.
  abbrev pub flushed : System
  flushed = record s {
    db_file =
        header_bytes (as_u64 (HashMap.len fields)) durable.name ++ records_bytes crates records;
    index_file = index_bytes (it.order IndexEntry index);
    wal_file = [];
    entries = [];
    fields = fields;
    index = index;
  }

  pub log-IsNet : All IsNet log
  unfolding net
  log-IsNet = All-get IsNet log (net-IsDistinct crates it s durable) λ k entry at_k.
      get-All IsNet k entry (net_entries s.entries [])
        (net_entries-IsNet s.entries [] durable.entries_valid tt)
        (sym (it.get-order WalEntry (net_entries s.entries []) k) ∙ at_k)

  or_else-none {ℓ} : {V : Type ℓ} (o : Option V) → or_else o none ≡ o
  or_else-none none = refl
  or_else-none (some v) = refl

  log-IsPlanned :
      All
        (IsPlanned plan (length (header_bytes durable.record_count durable.name)) durable.records)
        log
  unfolding net HashMap.get
  log-IsPlanned = All-get _ log (net-IsDistinct crates it s durable) entry_planned
    where
      entry_planned :
          (k : Key) (entry : WalEntry)
          → HashMap.get k log ≡ some entry
          → IsPlanned plan
              (length (header_bytes durable.record_count durable.name))
              durable.records
              (k, entry)
      entry_planned k (set key field) at_k = tt
      entry_planned k (delete key) at_k =
          let same : k ≡ key = (get-All IsNet k (delete key) log log-IsNet at_k).0 in
          let here : HashMap.get key log ≡ some (delete key) =
            ap (λ t. HashMap.get t log) (sym same) ∙ at_k in
          (
            get-plan_deletes key s.index [] log (net-IsDistinct crates it s durable)
                ∙ ap (λ t. planned s.index key t none) here
                ∙ or_else-none (HashMap.get key s.index)
                ∙ indexed.located key
                ∙ ap (λ h. locate key h durable.records none)
                    (sym (length-header_bytes durable.record_count durable.name)),
            once key (sym (it.get-order WalEntry (net_entries s.entries []) key) ∙ here),
          )

  abbrev header : Bytes
  header = header_bytes durable.record_count durable.name

  abbrev indexes : List (Key × IndexEntry)
  indexes = collected log (114 + sizes durable.records)

  abbrev recorded : System
  recorded = record s { db_file = header ++ records_bytes crates records }

  entries_recorded : write_entries crates plan log DbDeleter.new [] s ≡ (ok indexes, recorded)
  entries_recorded =
      write_entries-written crates plan header log durable.records [] s calm durable.db
        durable.records_valid (net-IsDistinct crates it s durable) log-IsNet log-IsPlanned
      ∙ ap (λ n. (ok (collected log (n + sizes durable.records)), recorded))
          (length-header_bytes durable.record_count durable.name)

  pub flush_records-flushed :
      flush_records crates it s
      ≡ (ok tt, record flushed { wal_file = s.wal_file; entries = s.entries })
  unfolding net
  flush_records-flushed =
      flush_records-run crates it s durable.record_count durable.name (records_bytes crates records)
        indexes calm entries_recorded

  pub flush-flushed : flush crates it s ≡ (ok tt, flushed)
  unfolding net
  flush-flushed =
      flush-swept crates it s durable.record_count durable.name (records_bytes crates records)
        indexes calm entries_recorded

  -- How long the `.db` file is then.
  pub length-flush : length (flush crates it s).1.db_file ≡ 114 + sizes records
  length-flush =
      ap (λ r. length r.1.db_file) flush-flushed
      ∙ length-append (header_bytes (as_u64 (HashMap.len fields)) durable.name)
          (records_bytes crates records)
      ∙ omega (
        arith,
        length-header_bytes (as_u64 (HashMap.len fields)) durable.name,
        length-records_bytes crates records,
      )
