-- ===== src/Db/Database/Stale.antt =====
-- `Database::flush` of src/db/db.rs on a key that has two live records in the `.db` file: the index
-- names the later one, and the tombstone is written there alone.
use peach_db.Base.{
  ◌+◌, ◌≤◌, ◌<◌, ◌≡◌, refl, sym, ap, ◌∙◌, none, some, List, [], ◌∷◌, ◌++◌, arith, All, length,
  length-append, inl, inr, Bool-cases, if◌then◌else◌,
}
use peach_db.Base.Words.{Bytes, as_u16, as_u32, as_u64}
use peach_db.Base.HashMap
use peach_db.Base.HashMap.{HashMap, key_eq, key_eq→eq, key_eq_refl}
use peach_db.Base.HashMap.Laws.{get-insert, get-remove}
use peach_db.Base.HashMap.Entries.{eq-nil, eq-singleton}
use peach_db.Error.{ok, err, key_not_found}
use peach_db.Cursor.{Crates}
use peach_db.Dtypes.Key
use peach_db.Dtypes.Key.{Key}
use peach_db.Dtypes.Field.{Field}
use peach_db.Dtypes.Codec.{bytes_from_field}
use peach_db.Db.DbDeleter
use peach_db.Db.WalCodec.{WalEntry, delete}
use peach_db.Db.IndexCodec.{IndexEntry}
use peach_db.Db.IndexCodec.RoundTrip.{index_bytes}
use peach_db.Db.Records.{
  DiskRecord, live, dead, IsRecord, record_bytes, records_bytes, apply_records,
}
use peach_db.Db.Records.Header.{header_bytes, length-header_bytes}
use peach_db.Db.System.{System}
use peach_db.Db.Database.{Iteration, get, found, replay_entries}
use peach_db.Db.Database.Open.{load_index, open_database}
use peach_db.Db.Database.Durable.{IsDurable}
use peach_db.Db.Database.Reopen.{crash, open_database-crash}
use peach_db.Db.Database.Net.{get-remove_keys}
use peach_db.Db.Database.Flush.{
  plan_deletes, index_entry, write_tombstone, write_entries, add_indexes, net_entries, flush,
}
use peach_db.Db.Database.FlushReads.{get-flush}
use peach_db.Db.Database.Tombstone.{write_tombstone-record_bytes}
use peach_db.Db.Database.Located.{size, length-record_bytes}
use peach_db.Db.Database.ScanRecord.{index_of}
use peach_db.Db.Database.Scan.{index_from_db-records_bytes}
use peach_db.Db.Database.FlushSteps.{swept, flush-swept}
use peach_db.Db.Database.FlushDone.{IsIndexed}
use mathlib.Core.List.{append_assoc}

module _ (crates : Crates) (it : Iteration) (s : System) (durable : IsDurable crates s)
    (indexed : IsIndexed crates s durable) (calm : s.fates ≡ []) (key : Key) (old new : Field)
    (two : durable.records ≡ live key old ∷ live key new ∷ []) (one : s.entries ≡ delete key ∷ [])
    (named : 0 < Key.len key) where
  abbrev net : HashMap WalEntry
  net = it.order WalEntry (net_entries s.entries [])

  abbrev header : Bytes
  header = header_bytes durable.record_count durable.name

  abbrev plan : HashMap IndexEntry
  plan = plan_deletes s.index net []

  abbrev left : List DiskRecord
  left = live key old ∷ dead (as_u16 (Key.len key)) (as_u32 (length (bytes_from_field new))) ∷ []

  abbrev last : IndexEntry
  last = index_entry (114 + size (live key old)) key new

  net_one : net ≡ (key, delete key) ∷ []
  unfolding net_entries HashMap.insert HashMap.get
  net_one = rw one (
      eq-singleton key (delete key) (it.order WalEntry ((key, delete key) ∷ []))
        (it.order_keeps WalEntry ((key, delete key) ∷ []) (refl, tt))
        (it.get-order WalEntry ((key, delete key) ∷ [])))

  get-index : (k : Key) → HashMap.get k s.index ≡ (if key_eq key k then some last else none)
  get-index k =
      indexed.located k ∙ rw two (elim (Bool-cases (key_eq key k)) [ inl e ↦ rw e | inr e ↦ rw e ])

  get-plan : (k : Key) → HashMap.get k plan ≡ (if key_eq key k then some last else none)
  unfolding plan_deletes
  get-plan k =
      rw (net_one, get-index key, key_eq_refl key)
        (get-insert key k last [] ∙ unfold HashMap.get in refl)

  both_valid : All IsRecord (live key old ∷ live key new ∷ [])
  both_valid = rw two at durable.records_valid

  abbrev before : Bytes
  before = header ++ record_bytes crates (live key old)

  length-before : length before ≡ 114 + size (live key old)
  length-before = omega (
    arith,
    length-append header (record_bytes crates (live key old)),
    length-header_bytes durable.record_count durable.name,
    length-record_bytes crates (live key old),
  )

  last_killed :
      write_tombstone (some last) DbDeleter.new s
      ≡ (ok DbDeleter.new, record s { db_file = header ++ records_bytes crates left })
  last_killed =
      ap (λ p. write_tombstone (some (index_entry p key new)) DbDeleter.new s) (sym length-before)
      ∙ write_tombstone-record_bytes crates key new s before [] both_valid.1.0 calm (
          durable.db
          ∙ ap (λ rs. header ++ records_bytes crates rs) two
          ∙ sym (
              append_assoc header (record_bytes crates (live key old))
                (record_bytes crates (live key new) ++ [])))
      ∙ ap (λ t. (ok DbDeleter.new, record s { db_file = t }))
          (append_assoc header (record_bytes crates (live key old)) _)

  wrote :
      write_entries crates plan net DbDeleter.new [] s
      ≡ (ok [], record s { db_file = header ++ records_bytes crates left })
  unfolding write_entries
  wrote =
      ap (λ n. write_entries crates plan n DbDeleter.new [] s) net_one
      ∙ rw (get-plan key, key_eq_refl key, last_killed)

  abbrev after : System
  after = swept crates it s durable.record_count durable.name (records_bytes crates left) [] calm

  flush-after : flush crates it s ≡ (ok tt, after)
  flush-after =
      flush-swept crates it s durable.record_count durable.name (records_bytes crates left) [] calm
        wrote

  index_empty : it.order IndexEntry after.index ≡ []
  unfolding add_indexes HashMap.get
  index_empty = eq-nil (it.order IndexEntry after.index) λ k.
      it.get-order IndexEntry after.index k
      ∙ get-remove_keys k (it.order IndexEntry plan) s.index
      ∙ rw (it.get-order IndexEntry plan k, get-plan k, get-index k)
          (elim (Bool-cases (key_eq key k)) [ inl e ↦ rw e | inr e ↦ rw e ])

  -- The state with what the files hold in memory.
  abbrev shown : System
  shown = record after { fields = apply_records [] left }

  shown-IsDurable : IsDurable crates shown
  unfolding load_index replay_entries
  shown-IsDurable = record {
    record_count = as_u64 (HashMap.len after.fields);
    name = durable.name;
    records = left;
    loaded = index_of 114 left [];
    count_fits = omega arith;
    records_valid = (both_valid.0, ((omega arith, omega arith), tt));
    entries_valid = tt;
    db = refl;
    log = refl;
    index =
        ap (λ es. load_index crates after.db_file (index_bytes es)) index_empty
        ∙ index_from_db-records_bytes crates (as_u64 (HashMap.len after.fields)) durable.name left
            (omega arith) (both_valid.0, ((omega arith, omega arith), tt)) (named, (tt, tt));
    view = λ k. refl;
  }

  not_held : (get key s).0 ≡ err key_not_found
  unfolding get replay_entries
  not_held = ap found gone
    where
      gone : HashMap.get key s.fields ≡ none
      gone =
          durable.view key
          ∙ rw one (get-remove key key (apply_records [] durable.records) ∙ rw (key_eq_refl key))

  old_shown : (get key shown).0 ≡ ok old
  unfolding get HashMap.get HashMap.insert
  old_shown = rw (key_eq_refl key)

  -- Where the `.db` file of a durable database has two live records of a key that is not empty and no
  -- other record, the log has the deletion of the key alone, and the index is right, `flush` without
  -- faults succeeds and `get` fails with `KeyNotFound`, before the flush and after it. But after a
  -- crash the files open under any name of at most 64 bytes, and `get` returns the older of the two
  -- values.
  pub get_stale :
      (name : Bytes)
      → length name ≤ 64
      → ((get key s).0 ≡ err key_not_found)
        × ((flush crates it s).0 ≡ ok tt)
        × ((get key (flush crates it s).1).0 ≡ err key_not_found)
        × ((open_database crates name (crash (flush crates it s).1)).0 ≡ ok tt)
        × ((get key (open_database crates name (crash (flush crates it s).1)).1).0 ≡ ok old)
  get_stale name short =
      let (opened, reads, still) = open_database-crash crates shown shown-IsDurable name short in
      (
        not_held,
        ap (λ r. r.0) flush-after,
        get-flush crates it s durable key ∙ not_held,
        ap (λ r. (open_database crates name (crash r.1)).0) flush-after ∙ opened,
        ap (λ r. (get key (open_database crates name (crash r.1)).1).0) flush-after
            ∙ reads key
            ∙ old_shown,
      )
