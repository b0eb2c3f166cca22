-- ===== src/Db/Database/Fresh.antt =====
-- `Database::open` of src/db/db.rs on empty files.
use peach_db.Base.{
  false, none, drop-nil, ℕ, ◌≤◌, ◌≡◌, refl, sym, [], ◌∷◌, ◌++◌, arith, length, ltb, le→ltb, drop,
}
use peach_db.Base.Words.{Bytes, to_le_bytes}
use peach_db.Base.HashMap
use peach_db.Base.HashMap.{HashMap}
use peach_db.Error.{ok}
use peach_db.Cursor.{Cursor, Crates, remaining}
use peach_db.Cursor.Laws.{read_uint_le-to_le_bytes, read_u8_here}
use peach_db.Dtypes.Key.{Key}
use peach_db.Db.DbEncoder.{db_header_magic, db_version, db_version_decimal}
use peach_db.Db.WalCodec.RoundTrip.{decode_wal-log_bytes}
use peach_db.Db.Records.Header.{header_bytes, encode_db_header-bytes, length-name_field}
use peach_db.Db.IndexFromDb.{
  decode_db_header, index_records, decode_index_from_file, index_from_db, skip_metadata_key,
}
use peach_db.Db.System.{System}
use peach_db.Db.FileHandler.{read_all, raw_look, raw_set_len, raw_write_all}
use peach_db.Db.Wal.{open_wal, replay}
use peach_db.Db.Database.{replay_entries}
use peach_db.Db.Database.Open.{load_index, new_or_init, open_files, open_database, new_database}
use peach_db.Db.Database.Durable.{IsDurable}
use mathlib.Core.List.{append-nil}

length-header_bytes : (count : ℕ) (name : Bytes) → length (header_bytes count name) ≡ 114
unfolding to_le_bytes
length-header_bytes count name = omega (arith, length-name_field name)

module _ (crates : Crates) (name : Bytes) where
  -- The scan of a file that holds a header alone finds no record.
  index_from_db-header : index_from_db crates (header_bytes 0 name) ≡ ok []
  unfolding index_from_db decode_index_from_file decode_db_header skip_metadata_key index_records
  index_from_db-header =
      rw
        (
          read_uint_le-to_le_bytes crates (at 8) 8 db_header_magic _ (omega arith) h₁,
          read_u8_here crates (at 24) db_version _ h₃,
          read_u8_here crates (at 25) db_version_decimal _ h₄,
          read_uint_le-to_le_bytes crates (at 34) 8 0 _ (omega arith) h₆,
        )
        (rw at_end)
    where
      at : ℕ → Cursor
      at p = record { inner = header_bytes 0 name; position = p }

      h₁ : remaining (at 8) ≡ to_le_bytes 8 db_header_magic ++ drop 16 (header_bytes 0 name)
      h₁ = unfold to_le_bytes in refl

      h₃ : remaining (at 24) ≡ db_version ∷ drop 25 (header_bytes 0 name)
      h₃ = unfold to_le_bytes in refl

      h₄ : remaining (at 25) ≡ db_version_decimal ∷ drop 26 (header_bytes 0 name)
      h₄ = unfold to_le_bytes in refl

      h₆ : remaining (at 34) ≡ to_le_bytes 8 0 ++ drop 42 (header_bytes 0 name)
      h₆ = unfold to_le_bytes in refl

      at_end : ltb 114 (length (header_bytes 0 name)) ≡ false
      at_end = le→ltb 114 (length (header_bytes 0 name)) (omega (arith, length-header_bytes 0 name))

  -- Opened without faults on three empty files, under a name of at most 64 bytes, the database holds
  -- no key and is durable from the start.
  pub open_database-fresh :
      (s : System)
      → s.db_file ≡ []
      → s.index_file ≡ []
      → s.wal_file ≡ []
      → s.fates ≡ []
      → length name ≤ 64
      → ((open_database crates name s).0 ≡ ok tt)
        × ((k : Key) → HashMap.get k (open_database crates name s).1.fields ≡ none)
        × ((open_database crates name s).1.fates ≡ [])
        × IsDurable crates (open_database crates name s).1
  unfolding open_database open_files open_wal replay read_all raw_look new_or_init new_database
      raw_set_len raw_write_all
  open_database-fresh s no_db no_index no_wal calm short =
      rw
        (
          le→ltb 64 (length name) short,
          calm,
          no_db,
          no_index,
          no_wal,
          decode_wal-log_bytes crates [] tt,
          encode_db_header-bytes,
          drop-nil,
          append-nil,
        )
        (
          refl,
          λ k. unfold HashMap.get in refl,
          refl,
          record {
            record_count = 0;
            name = name;
            records = [];
            loaded = [];
            count_fits = omega arith;
            records_valid = tt;
            entries_valid = tt;
            db = sym (append-nil (header_bytes 0 name));
            log = refl;
            index = unfold load_index in index_from_db-header;
            view = λ k. unfold replay_entries in refl;
          },
        )
