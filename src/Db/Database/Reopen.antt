-- ===== src/Db/Database/Reopen.antt =====
-- `Database::open` of src/db/db.rs after a crash or a clean end.
use mathlib.Core.Path.{ap₂}
use peach_db.Base.{
  ℕ, zero, suc, ◌-◌, ◌≤◌, ◌<◌, ◌≡◌, refl, sym, ap, ◌∙◌, List, [], ◌∷◌, ◌++◌, arith, false, length,
  take, drop, take-append-drop, length-take, le→ltb, ◌==◌, length-append,
}
use peach_db.Base.Words.{Bytes}
use peach_db.Base.Utf8.{from_utf8_lossy}
use peach_db.Error.{ok, err, io, unexpected_eof, IoErrorKind, other, PeachDbError}
use peach_db.Cursor.{Crates}
use peach_db.Dtypes.Key.{Key}
use peach_db.Dtypes.Field.{Field}
use peach_db.Db.DbDecoder.{trim_nul}
use peach_db.Db.WalCodec.{WalEntry, set, decode_wal}
use peach_db.Db.WalCodec.RoundTrip.{
  IsKey, IsStored, IsEntry, entry_bytes, decode_wal-log_bytes, encode_wal_entry-buffer,
}
use peach_db.Db.WalCodec.Torn.{decode_wal_torn}
use peach_db.Db.Records.{apply_records}
use peach_db.Db.Records.Header.{name_field}
use peach_db.Db.Records.File.{decode_db_file-records_bytes}
use peach_db.Db.System.{System, Fate, fails}
use peach_db.Db.FileHandler.{append, read_all, raw_look, raw_read_to_end}
use peach_db.Db.Wal.{append_entry, open_wal, replay, pop_uncommited_entries}
use peach_db.Db.Database.{get, found, set_key, replay_entries}
use peach_db.Db.Database.Open.{decode_fields, init, new_or_init, open_files, open_database}
use peach_db.Db.Database.Durable.{IsDurable}

-- Memory is lost; the files stay, and no call fails from here on.
abbrev pub crash : System → System
crash s = record s { fates = []; entries = []; fields = []; index = [] }

positive_ne_zero : (n : ℕ) → 0 < n → (n == 0) ≡ false
positive_ne_zero n h = ground arith

module _ (crates : Crates) (s : System) (durable : IsDurable crates s) where
  -- The state after the files were opened again.
  unfoldable pub reopened : System
  reopened = record s {
    fates = [];
    fields = replay_entries s.entries (apply_records [] durable.records);
    index = durable.loaded;
  }

  log_read : decode_wal crates s.wal_file ≡ ok s.entries
  log_read =
      ap (decode_wal crates) durable.log
      ∙ decode_wal-log_bytes crates s.entries durable.entries_valid

  not_new : (length s.db_file == 0) ≡ false
  not_new = positive_ne_zero (length s.db_file) (omega (arith, ap length durable.db))

  db_read :
      decode_fields crates s.db_file
      ≡ ok (
        apply_records [] durable.records,
        record {
          version = 1;
          record_count = durable.record_count;
          name = trim_nul (from_utf8_lossy (name_field durable.name));
        },
      )
  unfolding decode_fields
  db_read = rw durable.db (
      decode_db_file-records_bytes crates durable.record_count durable.name durable.records
        durable.count_fits durable.records_valid)

  open_files-reopened : (name : Bytes) → open_files crates name (crash s) ≡ (ok tt, reopened)
  unfolding open_files open_wal replay read_all raw_look new_or_init init raw_read_to_end
      pop_uncommited_entries reopened
  open_files-reopened name = rw (log_read, not_new, db_read, durable.index)

  pub open_database-eq-reopened :
      (name : Bytes) → length name ≤ 64 → open_database crates name (crash s) ≡ (ok tt, reopened)
  unfolding open_database
  open_database-eq-reopened name short =
      rw (le→ltb 64 (length name) short) (open_files-reopened name)

  unfoldable pub reopened-IsDurable : IsDurable crates reopened
  unfolding reopened
  reopened-IsDurable = record {
    record_count = durable.record_count;
    name = durable.name;
    records = durable.records;
    loaded = durable.loaded;
    count_fits = durable.count_fits;
    records_valid = durable.records_valid;
    entries_valid = durable.entries_valid;
    db = durable.db;
    log = durable.log;
    index = durable.index;
    view = λ k. refl;
  }

  -- After a crash the files of a durable database open, under any name of at most 64 bytes, every `get`
  -- returns what it returned before, and the database is durable still.
  pub open_database-crash :
      (name : Bytes)
      → length name ≤ 64
      → ((open_database crates name (crash s)).0 ≡ ok tt)
        × ((k : Key) → (get k (open_database crates name (crash s)).1).0 ≡ (get k s).0)
        × IsDurable crates (open_database crates name (crash s)).1
  unfolding get reopened
  open_database-crash name short =
      rw (open_database-eq-reopened name short)
        (refl, λ k. ap found (sym (durable.view k)), reopened-IsDurable)

-- A list of bytes that was cut strictly inside.
cut_inside :
    (n : ℕ) (xs : Bytes)
    → 0 < n
    → n < length xs
    → (f : ℕ) × (front : Bytes) × (b : ℕ) × (back : Bytes) × (take n xs ≡ f ∷ front)
      × ((f ∷ front) ++ b ∷ back ≡ xs)
cut_inside n xs lo hi = go n xs lo hi (take-append-drop n xs)
  where
    tail :
        (f : ℕ) (front xs rest : Bytes)
        → (f ∷ front) ++ rest ≡ xs
        → length front < length xs - 1
        → (b : ℕ) × (back : Bytes) × ((f ∷ front) ++ b ∷ back ≡ xs)
    tail f front xs [] e h = absurd (omega (arith, ap length e, length-append (f ∷ front) []))
    tail f front xs (b ∷ back) e h = (b, back, e)

    go :
        (n : ℕ) (xs : Bytes)
        → 0 < n
        → n < length xs
        → take n xs ++ drop n xs ≡ xs
        → (f : ℕ) × (front : Bytes) × (b : ℕ) × (back : Bytes) × (take n xs ≡ f ∷ front)
          × ((f ∷ front) ++ b ∷ back ≡ xs)
    go (suc n) [] lo hi e = absurd (omega arith)
    go zero xs lo hi e = absurd (omega arith)
    go (suc n) (x ∷ xs) lo hi e =
        let (b, back, e') =
          tail x (take n xs) (x ∷ xs) (drop n xs) e (omega (arith, length-take n xs)) in
        (x, take n xs, b, back, refl, e')

-- What a write to the log leaves that fails after some of its bytes.
pub append_entry_torn :
    (s : System) (w : WalEntry) (n : ℕ) (kind : IoErrorKind) (fates : List Fate)
    → s.fates ≡ fails kind n ∷ fates
    → append_entry w s ≡ (
      err (io other),
      record s { wal_file = s.wal_file ++ take n (entry_bytes w); fates = fates },
    )
unfolding append_entry append
append_entry_torn s w n kind fates fate = rw (fate, encode_wal_entry-buffer)

torn_step :
    (s : System) (key : Key) (field : Field) (n : ℕ) (kind : IoErrorKind) (fates : List Fate)
    → s.fates ≡ fails kind n ∷ fates
    → set_key key field s ≡ (
      err (io other),
      record s { wal_file = s.wal_file ++ take n (entry_bytes (set key field)); fates = fates },
    )
unfolding set_key
torn_step s key field n kind fates fate = rw (append_entry_torn s (set key field) n kind fates fate)

pub torn_log :
    (crates : Crates) (s : System) (durable : IsDurable crates s) (w : WalEntry) (n : ℕ)
    → IsEntry w
    → 0 < n
    → n < length (entry_bytes w)
    → decode_wal crates (s.wal_file ++ take n (entry_bytes w)) ≡ err (io unexpected_eof)
torn_log crates s durable w n valid lo hi =
    let (f, front, b, back, cut, whole) = cut_inside n (entry_bytes w) lo hi in
    ap (λ t. decode_wal crates t) (ap₂ (λ a c. a ++ c) durable.log cut)
    ∙ decode_wal_torn crates s.entries w f front b back durable.entries_valid valid whole

pub open_unreadable :
    (crates : Crates) (t : System) (name : Bytes) {e : PeachDbError}
    → length name ≤ 64
    → decode_wal crates t.wal_file ≡ err e
    → (open_database crates name (crash t)).0 ≡ err e
unfolding open_database open_files open_wal replay read_all raw_look
open_unreadable crates t name short h = rw (le→ltb 64 (length name) short, h)

-- If the write of a well-formed `set` to the log of a durable database fails after some of its bytes,
-- but not all, then the files do not open again under any name of at most 64 bytes: `open` fails with
-- `UnexpectedEof`.
pub torn_set_key :
    (crates : Crates) (s : System) (durable : IsDurable crates s) (key : Key) (field : Field)
    (n : ℕ) (kind : IoErrorKind) (fates : List Fate) (name : Bytes)
    → IsKey key
    → IsStored field
    → s.fates ≡ fails kind n ∷ fates
    → 0 < n
    → n < length (entry_bytes (set key field))
    → length name ≤ 64
    → ((set_key key field s).0 ≡ err (io other))
      × ((open_database crates name (crash (set_key key field s).1)).0 ≡ err (io unexpected_eof))
torn_set_key crates s durable key field n kind fates name short stored fate lo hi fits =
    rw (torn_step s key field n kind fates fate) (
      refl,
      open_unreadable crates
          (record s {
            wal_file = s.wal_file ++ take n (entry_bytes (set key field));
            fates = fates;
          })
          name fits (torn_log crates s durable (set key field) n (short, stored) lo hi),
    )
