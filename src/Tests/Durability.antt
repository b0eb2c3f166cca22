-- ===== src/Tests/Durability.antt =====
-- Whole flushes at concrete files.
use peach_db.Base.{
  ◌+◌, ◌<◌, ◌≤◌, ◌^◌, ◌≡◌, refl, some, List, [], ◌∷◌, ◌++◌, arith, length, Bool-cases, inl, inr,
}
use peach_db.Base.Keys.{bytes_eq}
use peach_db.Base.Words.{Bytes, to_le_bytes}
use peach_db.Base.HashMap
use peach_db.Base.HashMap.{HashMap, key_eq}
use peach_db.Error.{ok, err, key_not_found}
use peach_db.Dtypes.Key.{Key}
use peach_db.Dtypes.Codec.{bytes_from_field}
use peach_db.Db.WalCodec.{set, delete}
use peach_db.Db.WalCodec.RoundTrip.{IsStored, log_bytes}
use peach_db.Db.IndexFromDb.{index_from_db}
use peach_db.Db.Records.{DiskRecord, live, dead, records_bytes}
use peach_db.Db.Records.Header.{header_bytes}
use peach_db.Db.System.{System}
use peach_db.Db.Database.{get, replay_entries}
use peach_db.Db.Database.Open.{load_index, open_database}
use peach_db.Db.Database.Durable.{IsDurable}
use peach_db.Db.Database.Reopen.{crash}
use peach_db.Db.Database.Flush.{index_entry, net_entries, flush}
use peach_db.Db.Database.FlushReads.{net, get-flush}
use peach_db.Db.Database.Located.{size, sizes, lives}
use peach_db.Db.Database.ScanRecord.{index_of}
use peach_db.Db.Database.Scan.{index_from_db-records_bytes}
use peach_db.Db.Database.FlushDone.{IsIndexed, records, length-flush}
use peach_db.Db.Database.FlushDurable.{flush-IsIndexed}
use peach_db.Db.Database.Stale.{get_stale}
use peach_db.Tests.Sample.{
  sample_crates, sample_iteration, key_a, key_b, blob, number, key_a-short, key_b-short,
  blob-IsStored, empty_files,
}

abbrev pub name : Bytes
name = 100 ∷ []

pub name-short : length name ≤ 64
name-short = omega arith

abbrev scanned : List DiskRecord
scanned = live key_a number ∷ dead 2 3 ∷ live key_b blob ∷ []

pub number-IsStored : IsStored number
unfolding bytes_from_field peach_db.Dtypes.Codec.bytes_from_primitive to_le_bytes
number-IsStored = (omega arith, omega arith)

index_from_db-records_bytes_example :
    index_from_db sample_crates (header_bytes 2 name ++ records_bytes sample_crates scanned)
    ≡ ok (index_of 114 scanned [])
index_from_db-records_bytes_example =
    index_from_db-records_bytes sample_crates 2 name scanned (omega arith)
      (
        (key_a-short, number-IsStored),
        ((omega arith, omega arith), ((key_b-short, blob-IsStored), tt)),
      )
      (omega arith, (tt, (omega arith, tt)))

-- A record of one key, its deletion and the value of another key in the log.
abbrev pub stored : System
stored = record empty_files {
  db_file = header_bytes 1 name ++ records_bytes sample_crates (live key_a blob ∷ []);
  wal_file = log_bytes (delete key_a ∷ set key_b blob ∷ []);
  entries = delete key_a ∷ set key_b blob ∷ [];
  fields = (key_b, blob) ∷ [];
  index = (key_a, index_entry 114 key_a blob) ∷ [];
}

pub stored-IsDurable : IsDurable sample_crates stored
unfolding load_index replay_entries HashMap.insert HashMap.remove bytes_eq
stored-IsDurable = record {
  record_count = 1;
  name = name;
  records = live key_a blob ∷ [];
  loaded = index_of 114 (live key_a blob ∷ []) [];
  count_fits = omega arith;
  records_valid = ((key_a-short, blob-IsStored), tt);
  entries_valid = (key_a-short, ((key_b-short, blob-IsStored), tt));
  db = refl;
  log = refl;
  index =
      index_from_db-records_bytes sample_crates 1 name (live key_a blob ∷ []) (omega arith)
        ((key_a-short, blob-IsStored), tt) (omega arith, tt);
  view = λ k. refl;
}

pub stored-IsIndexed : IsIndexed sample_crates stored stored-IsDurable
unfolding stored-IsDurable HashMap.insert HashMap.get bytes_eq
stored-IsIndexed = record {
  distinct = (refl, tt);
  located = λ k. refl;
  loaded_distinct = (refl, tt);
  loaded = λ k. refl;
}

pub stored_once :
    (k : Key)
    → HashMap.get k (net_entries stored.entries []) ≡ some (delete k)
    → lives k stored-IsDurable.records ≤ 1
unfolding stored-IsDurable
stored_once k planned = elim (Bool-cases (key_eq key_a k)) [
  | inl e ↦ rw e (omega arith)
  | inr e ↦ rw e (omega arith)
]

sizes-stored :
    sizes (
      records sample_crates sample_iteration stored stored-IsDurable stored-IsIndexed refl
        stored_once)
    ≡ 39
unfolding stored-IsDurable net net_entries HashMap.insert bytes_eq bytes_from_field
sizes-stored = refl

pub stored_near : length (flush sample_crates sample_iteration stored).1.db_file < 2 ^ 64
stored_near = omega (
  arith,
  length-flush sample_crates sample_iteration stored stored-IsDurable stored-IsIndexed refl
      stored_once,
  sizes-stored,
)

get-flush_example : (get key_b (flush sample_crates sample_iteration stored).1).0 ≡ ok blob
unfolding bytes_eq get HashMap.get
get-flush_example = get-flush sample_crates sample_iteration stored stored-IsDurable key_b

flush-IsIndexed_example :
    ((flush sample_crates sample_iteration stored).0 ≡ ok tt)
    × ((flush sample_crates sample_iteration stored).1.entries ≡ [])
    × ((flush sample_crates sample_iteration stored).1.wal_file ≡ [])
    × (after : IsDurable sample_crates (flush sample_crates sample_iteration stored).1) × IsIndexed
        sample_crates
        (flush sample_crates sample_iteration stored).1
        after
flush-IsIndexed_example =
    flush-IsIndexed sample_crates sample_iteration stored stored-IsDurable stored-IsIndexed refl
      stored_once stored_near

-- Two records of one key, and its deletion in the log.
abbrev doubled : System
doubled = record empty_files {
  db_file =
      header_bytes 1 name ++ records_bytes sample_crates (live key_a number ∷ live key_a blob ∷ []);
  wal_file = log_bytes (delete key_a ∷ []);
  entries = delete key_a ∷ [];
  index = (key_a, index_entry (114 + size (live key_a number)) key_a blob) ∷ [];
}

doubled-IsDurable : IsDurable sample_crates doubled
unfolding load_index replay_entries HashMap.insert HashMap.remove bytes_eq
doubled-IsDurable = record {
  record_count = 1;
  name = name;
  records = live key_a number ∷ live key_a blob ∷ [];
  loaded = index_of 114 (live key_a number ∷ live key_a blob ∷ []) [];
  count_fits = omega arith;
  records_valid = ((key_a-short, number-IsStored), ((key_a-short, blob-IsStored), tt));
  entries_valid = (key_a-short, tt);
  db = refl;
  log = refl;
  index =
      index_from_db-records_bytes sample_crates 1 name (live key_a number ∷ live key_a blob ∷ [])
        (omega arith) ((key_a-short, number-IsStored), ((key_a-short, blob-IsStored), tt))
        (omega arith, (omega arith, tt));
  view = λ k. refl;
}

doubled-IsIndexed : IsIndexed sample_crates doubled doubled-IsDurable
unfolding doubled-IsDurable HashMap.insert HashMap.get bytes_eq
doubled-IsIndexed = record {
  distinct = (refl, tt);
  located = λ k. elim (Bool-cases (key_eq key_a k)) [ inl e ↦ rw e | inr e ↦ rw e ];
  loaded_distinct = (refl, tt);
  loaded = λ k. elim (Bool-cases (key_eq key_a k)) [ inl e ↦ rw e | inr e ↦ rw e ];
}

doubled_records : doubled-IsDurable.records ≡ live key_a number ∷ live key_a blob ∷ []
unfolding doubled-IsDurable
doubled_records = refl

get_stale_example :
    ((get key_a doubled).0 ≡ err key_not_found)
    × ((flush sample_crates sample_iteration doubled).0 ≡ ok tt)
    × ((get key_a (flush sample_crates sample_iteration doubled).1).0 ≡ err key_not_found)
    × ((open_database sample_crates name (crash (flush sample_crates sample_iteration doubled).1)).0
        ≡ ok tt)
    × ((get key_a
          (open_database sample_crates name
            (crash (flush sample_crates sample_iteration doubled).1)).1).0
        ≡ ok number)
get_stale_example =
    get_stale sample_crates sample_iteration doubled doubled-IsDurable doubled-IsIndexed refl key_a
      number blob doubled_records refl (omega arith) name name-short
