-- ===== src/Db/Database/Unflushed.antt =====
-- `Database` of src/db/db.rs after its first opening, on empty files.
use peach_db.Base.{◌≤◌, ◌≡◌, refl, sym, ap, ◌∙◌, [], arith, length, All, le→ltb, drop-nil}
use peach_db.Base.Words.{Bytes}
use peach_db.Base.HashMap
use peach_db.Base.HashMap.{HashMap, key_eq}
use peach_db.Error.{ok}
use peach_db.Cursor.{Crates}
use peach_db.Dtypes.Key.{Key}
use peach_db.Db.WalCodec.RoundTrip.{IsEntry, log_bytes, decode_wal-log_bytes}
use peach_db.Db.Records.Header.{header_bytes, encode_db_header-bytes}
use peach_db.Db.System.{System}
use peach_db.Db.FileHandler.{read_all, raw_look, raw_set_len, raw_write_all}
use peach_db.Db.Wal.{open_wal, replay}
use peach_db.Db.Database.{replay_entries}
use peach_db.Db.Database.Open.{load_index, new_or_init, open_files, open_database, new_database}
use peach_db.Db.Database.Durable.{IsDurable}
use peach_db.Db.Database.FlushDone.{IsIndexed}
use peach_db.Db.Database.Scan.{index_from_db-records_bytes}
use mathlib.Core.List.{append-nil}

-- A database whose files were new, and which was not flushed since: no record, and every write in the
-- log.
pub record IsUnflushed (name : Bytes) (s : System) : Type 0 where
  pub db : s.db_file ≡ header_bytes 0 name
  pub no_index : s.index_file ≡ []
  pub log : s.wal_file ≡ log_bytes s.entries
  pub empty : s.index ≡ []
  pub calm : s.fates ≡ []
  pub entries_valid : All IsEntry s.entries
  pub view : (k : Key) → HashMap.get k s.fields ≡ HashMap.get k (replay_entries s.entries [])

module _ (crates : Crates) (name : Bytes) where
  abbrev pub fresh : System
  fresh = record {
    db_file = header_bytes 0 name;
    index_file = [];
    wal_file = [];
    fates = [];
    entries = [];
    fields = [];
    index = [];
  }

  pub open_database-eq-fresh :
      (s : System)
      → s.db_file ≡ []
      → s.index_file ≡ []
      → s.wal_file ≡ []
      → s.fates ≡ []
      → length name ≤ 64
      → open_database crates name s ≡ (ok tt, fresh)
  unfolding open_database open_files open_wal replay read_all raw_look new_or_init new_database
      raw_set_len raw_write_all
  open_database-eq-fresh s no_db no_index no_wal calm short = rw (
    le→ltb 64 (length name) short,
    calm,
    no_db,
    no_index,
    no_wal,
    decode_wal-log_bytes crates [] tt,
    encode_db_header-bytes,
    drop-nil,
    append-nil,
  )

  pub fresh-IsUnflushed : IsUnflushed name fresh
  fresh-IsUnflushed = record {
    db = refl;
    no_index = refl;
    log = refl;
    empty = refl;
    calm = refl;
    entries_valid = tt;
    view = λ k. unfold replay_entries in refl;
  }

  unfoldable pub unflushed-IsDurable : (s : System) → IsUnflushed name s → IsDurable crates s
  unfolding load_index
  unflushed-IsDurable s h = record {
    record_count = 0;
    name = name;
    records = [];
    loaded = [];
    count_fits = omega arith;
    records_valid = tt;
    entries_valid = h.entries_valid;
    db = h.db ∙ sym (append-nil (header_bytes 0 name));
    log = h.log;
    index =
        ap (λ b. load_index crates s.db_file b) h.no_index
        ∙ ap (λ d. load_index crates d []) (h.db ∙ sym (append-nil (header_bytes 0 name)))
        ∙ index_from_db-records_bytes crates 0 name [] (omega arith) tt tt;
    view = h.view;
  }

  pub unflushed-IsIndexed :
      (s : System) (h : IsUnflushed name s) → IsIndexed crates s (unflushed-IsDurable s h)
  unfolding unflushed-IsDurable HashMap.get
  unflushed-IsIndexed s h = record {
    distinct = rw (h.empty) tt;
    located = λ k. ap (HashMap.get k) h.empty;
    loaded_distinct = tt;
    loaded = λ k. refl;
  }
