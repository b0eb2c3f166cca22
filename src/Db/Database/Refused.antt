-- ===== src/Db/Database/Refused.antt =====
-- `Database::open` of src/db/db.rs on a `.db` file with a record whose checksum is wrong.
use peach_db.Base.{
  refl, ◌≤◌, ◌<◌, ◌^◌, ◌≡◌, ◌++◌, [], arith, false, ap, ◌∙◌, List, All, length, length-append,
  le→ltb, ◌==◌, ℕ,
}
use peach_db.Base.Words.{Bytes}
use peach_db.Error.{ok, err}
use peach_db.Cursor.{Crates}
use peach_db.Db.WalCodec.{WalEntry, decode_wal}
use peach_db.Db.WalCodec.RoundTrip.{IsEntry, log_bytes, decode_wal-log_bytes}
use peach_db.Db.Records.{DiskRecord, IsRecord, records_bytes}
use peach_db.Db.Records.Header.{header_bytes, length-header_bytes}
use peach_db.Db.Records.Checksum.{IsCorrupted, corrupted_bytes, mismatch, decode_db_file-corrupted}
use peach_db.Db.System.{System}
use peach_db.Db.FileHandler.{read_all, raw_look, raw_read_to_end}
use peach_db.Db.Wal.{open_wal, replay}
use peach_db.Db.Database.Open.{decode_fields, init, new_or_init, open_files, open_database}

module _ (crates : Crates) (s : System) (entries : List WalEntry) (record_count : ℕ) (name : Bytes)
    (records : List DiskRecord) (key payload : Bytes) (crc : ℕ) (rest : Bytes)
    (bad : IsCorrupted crates key payload crc) (calm : s.fates ≡ [])
    (log : s.wal_file ≡ log_bytes entries) (entries_valid : All IsEntry entries)
    (db : s.db_file
      ≡ header_bytes record_count name
        ++ (records_bytes crates records ++ (corrupted_bytes key payload crc ++ rest)))
    (count_fits : record_count < 2 ^ 64) (records_valid : All IsRecord records) where
  log_read : decode_wal crates s.wal_file ≡ ok entries
  log_read = ap (decode_wal crates) log ∙ decode_wal-log_bytes crates entries entries_valid

  not_new : (length s.db_file == 0) ≡ false
  not_new = ground (
    arith,
    ap length db,
    length-append (header_bytes record_count name)
        (records_bytes crates records ++ (corrupted_bytes key payload crc ++ rest)),
    length-header_bytes record_count name,
  )

  db_refused : decode_fields crates s.db_file ≡ err mismatch
  unfolding decode_fields
  db_refused = rw (
    db,
    decode_db_file-corrupted crates key payload crc bad record_count name records rest count_fits
        records_valid,
  )

  -- Where the log is intact and no system call fails, a `.db` file in which, behind a header and
  -- well-formed records, stands a record whose checksum is not that of its key and payload, is refused
  -- under every name of at most 64 bytes, whatever the index file and the rest of the `.db` file contain: `open`
  -- fails with "Checksum Mismatch", and leaves the three files as they were.
  pub open_database-corrupted :
      (db_name : Bytes)
      → length db_name ≤ 64
      → ((open_database crates db_name s).0 ≡ err mismatch)
        × ((open_database crates db_name s).1.db_file ≡ s.db_file)
        × ((open_database crates db_name s).1.index_file ≡ s.index_file)
        × ((open_database crates db_name s).1.wal_file ≡ s.wal_file)
  unfolding open_database open_files open_wal replay read_all raw_look new_or_init init
      raw_read_to_end
  open_database-corrupted db_name short =
      rw (le→ltb 64 (length db_name) short, calm, log_read, not_new, db_refused)
        (refl, refl, refl, refl)
