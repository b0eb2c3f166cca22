-- ===== src/Db/Database/FlushDurable.antt =====
-- `Database::flush` of src/db/db.rs, and then `open`: the database that it leaves is durable.
use peach_db.Base.{
  ◌+◌, ◌≤◌, ◌<◌, ◌^◌, ◌≡◌, refl, sym, ap, ◌∙◌, subst, none, some, List, [], arith, All, length,
  length-append,
}
use peach_db.Base.Words.{Bytes, as_u64}
use peach_db.Base.HashMap
use peach_db.Base.HashMap.{HashMap, key_eq, key_eq_refl}
use peach_db.Base.HashMap.Entries.{All-get}
use peach_db.Error.{Outcome, ok}
use peach_db.Cursor.{Crates}
use peach_db.Dtypes.Key.{Key}
use peach_db.Db.WalCodec.{WalEntry, delete}
use peach_db.Db.IndexCodec.{IndexEntry}
use peach_db.Db.IndexCodec.RoundTrip.{IsIndexEntry}
use peach_db.Db.Records.{DiskRecord, IsRecord, records_bytes, apply_records}
use peach_db.Db.Records.Header.{header_bytes, length-header_bytes}
use peach_db.Db.System.{System}
use peach_db.Db.Database.{Iteration, get, replay_entries}
use peach_db.Db.Database.Open.{open_database}
use peach_db.Db.Database.Reopen.{crash, open_database-crash}
use peach_db.Db.Database.Durable.{IsDurable}
use peach_db.Db.Database.Net.{
  net_value, unless_held, get-replay_entries, get-plan_deletes, get-remove_keys,
}
use peach_db.Db.Database.Flush.{plan_deletes, net_entries, add_indexes, flush}
use peach_db.Db.Database.FlushReads.{get-flush, net, net-IsDistinct, planned-unheld}
use peach_db.Db.Database.Located.{lives, locate, sizes, get-apply_records, length-records_bytes}
use peach_db.Db.Database.Written.{written, collected}
use peach_db.Db.Database.Placed.{
  placed, latest-written, locate-written, get-add_indexes, written-IsRecord, add_indexes-IsDistinct,
  remove_all-IsDistinct, locate-IsIndexEntry,
}
use peach_db.Db.Database.FlushDone.{IsIndexed, flushed, flush-flushed, log-IsNet}
use peach_db.Db.Database.Loads.{Loads, load_index-Loads}

module _ (crates : Crates) (it : Iteration) (s : System) (durable : IsDurable crates s)
    (indexed : IsIndexed crates s durable) (calm : s.fates ≡ [])
    (once : (k : Key)
      → HashMap.get k (net_entries s.entries []) ≡ some (delete k)
      → lives k durable.records ≤ 1) where
  abbrev log : HashMap WalEntry
  log = net crates it s durable

  abbrev pub after : System
  after = flushed crates it s durable indexed calm once

  abbrev pub left : List DiskRecord
  left = written log durable.records

  left-IsRecord : All IsRecord left
  left-IsRecord =
      written-IsRecord log durable.records (log-IsNet crates it s durable indexed calm once)
        durable.records_valid

  index-located : (k : Key) → HashMap.get k after.index ≡ locate k 114 left none
  unfolding HashMap.get
  index-located k =
      get-remove_keys k (it.order IndexEntry plan) (add_indexes new s.index)
      ∙ ap (λ o. unless_held o (HashMap.get k (add_indexes new s.index)))
          (it.get-order IndexEntry plan k
            ∙ get-plan_deletes k s.index [] log (net-IsDistinct crates it s durable))
      ∙ get-add_indexes k log (114 + sizes durable.records) s.index s.index
          (net-IsDistinct crates it s durable) (log-IsNet crates it s durable indexed calm once)
          refl
      ∙ ap (placed k log (114 + sizes durable.records)) (indexed.located k)
      ∙ sym (
          locate-written k 114 log durable.records durable.records_valid
            (log-IsNet crates it s durable indexed calm once))
    where
      plan : HashMap IndexEntry
      plan = plan_deletes s.index log []

      new : List (Key × IndexEntry)
      new = collected log (114 + sizes durable.records)

  index-IsDistinct : HashMap.IsDistinct after.index
  index-IsDistinct = remove_all-IsDistinct _ _ (add_indexes-IsDistinct _ s.index indexed.distinct)

  -- Memory shows what the records hold.
  fields-latest : (k : Key) → HashMap.get k after.fields ≡ HashMap.get k (apply_records [] left)
  unfolding net HashMap.get
  fields-latest k =
      get-remove_keys k (it.order IndexEntry (plan_deletes s.index log [])) s.fields
      ∙ planned-unheld crates it s durable k (HashMap.get k s.fields) refl
      ∙ durable.view k
      ∙ get-replay_entries k s.entries (apply_records [] durable.records)
      ∙ ap (λ o. net_value o (HashMap.get k (apply_records [] durable.records)))
          (sym (it.get-order WalEntry (net_entries s.entries []) k))
      ∙ ap (net_value (HashMap.get k log)) (get-apply_records k durable.records [])
      ∙ sym (
          latest-written k log durable.records (net-IsDistinct crates it s durable)
            (log-IsNet crates it s durable indexed calm once))
      ∙ sym (get-apply_records k left [])

  module _ (near : length after.db_file < 2 ^ 64) where
    ends_near : 114 + sizes left < 2 ^ 64
    ends_near = omega (
      arith,
      length-append (header_bytes (as_u64 (HashMap.len after.fields)) durable.name)
          (records_bytes crates left),
      length-header_bytes (as_u64 (HashMap.len after.fields)) durable.name,
      length-records_bytes crates left,
      near,
    )

    index-IsIndexEntry : All IsIndexEntry (it.order IndexEntry after.index)
    index-IsIndexEntry =
        All-get IsIndexEntry (it.order IndexEntry after.index)
          (it.order_keeps IndexEntry after.index index-IsDistinct)
          λ k e at_k.
            locate-IsIndexEntry k 114 left none e left-IsRecord ends_near (λ i p. cc)
              (sym (index-located k) ∙ sym (it.get-order IndexEntry after.index k) ∙ at_k)

    count_near : as_u64 (HashMap.len after.fields) < 2 ^ 64
    count_near = omega arith

    loads : Loads crates after.db_file after.index_file left
    loads =
        load_index-Loads crates (as_u64 (HashMap.len after.fields)) durable.name left
          (it.order IndexEntry after.index) count_near left-IsRecord
          (it.order_keeps IndexEntry after.index index-IsDistinct) index-IsIndexEntry
          λ k. it.get-order IndexEntry after.index k ∙ index-located k

    after-IsDurable : IsDurable crates after
    after-IsDurable = record {
      record_count = as_u64 (HashMap.len after.fields);
      name = durable.name;
      records = left;
      loaded = loads.loaded;
      count_fits = count_near;
      records_valid = left-IsRecord;
      entries_valid = tt;
      db = refl;
      log = refl;
      index = loads.is_loaded;
      view = λ k. unfold replay_entries in fields-latest k;
    }

    after-IsIndexed : IsIndexed crates after after-IsDurable
    unfolding after-IsDurable net
    after-IsIndexed = record {
      distinct = index-IsDistinct;
      located = index-located;
      loaded_distinct = loads.distinct;
      loaded = loads.located;
    }

    -- The two with the records that they are about.
    pub after_records :
        (left_durable : IsDurable crates after) × IsIndexed crates after left_durable
        × (left_durable.records ≡ left)
    unfolding after-IsDurable
    after_records = (after-IsDurable, after-IsIndexed, refl)

  -- Where every key that the log deletes in the end has at most one live record, and the `.db` file
  -- stays shorter than 2 ^ 64 bytes, a flush without faults of a durable database whose index is right
  -- succeeds, empties the log, and leaves a durable database whose index is right: in memory, and as
  -- the files load it, it has each key where its last live record stands.
  pub flush-IsIndexed :
      length (flush crates it s).1.db_file < 2 ^ 64
      → ((flush crates it s).0 ≡ ok tt)
        × ((flush crates it s).1.entries ≡ [])
        × ((flush crates it s).1.wal_file ≡ [])
        × (after : IsDurable crates (flush crates it s).1) × IsIndexed crates
            (flush crates it s).1
            after
  flush-IsIndexed =
      subst
        (λ (r : Outcome (Unit {0}) × System).
          length r.1.db_file < 2 ^ 64
          → (r.0 ≡ ok tt)
            × (r.1.entries ≡ [])
            × (r.1.wal_file ≡ [])
            × (after : IsDurable crates r.1) × IsIndexed crates r.1 after)
        (sym (flush-flushed crates it s durable indexed calm once))
        λ near. (refl, refl, refl, after-IsDurable near, after-IsIndexed near)

  -- Where every key that the log deletes in the end has at most one live record, and the `.db` file
  -- stays shorter than 2 ^ 64 bytes, a flush without faults of a durable database whose index is right
  -- succeeds, and after a crash the files open under any name of at most 64 bytes, and every `get`
  -- returns what it returned before the flush.
  pub get-flush-crash :
      (name : Bytes)
      → length (flush crates it s).1.db_file < 2 ^ 64
      → length name ≤ 64
      → ((flush crates it s).0 ≡ ok tt)
        × ((open_database crates name (crash (flush crates it s).1)).0 ≡ ok tt)
        × ((k : Key)
            → (get k (open_database crates name (crash (flush crates it s).1)).1).0 ≡ (get k s).0)
  get-flush-crash name near short =
      let (flushed, empty, no_log, durable_after, indexed_after) = flush-IsIndexed near in
      let (opened, reads, still) =
        open_database-crash crates (flush crates it s).1 durable_after name short in
      (flushed, opened, λ k. reads k ∙ get-flush crates it s durable k)
