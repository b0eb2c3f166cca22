-- ===== src/Tests/Flushes.antt =====
-- The parts of a flush at concrete files.
use peach_db.Base.{◌%◌, ◌^◌, ◌≡◌, refl, some, [], ◌∷◌, ◌++◌, length}
use peach_db.Error.{ok}
use peach_db.Db.DbDeleter
use peach_db.Dtypes.Codec.{bytes_from_field}
use peach_db.Db.Records.{live, dead, record_bytes}
use peach_db.Db.Records.Header.{header_bytes}
use peach_db.Db.System.{System}
use peach_db.Db.Database.Flush.{index_entry, write_tombstone, update_record_count}
use peach_db.Db.Database.Count.{update_record_count-header_bytes}
use peach_db.Db.Database.Tombstone.{write_tombstone-record_bytes}
use peach_db.Tests.Sample.{
  sample_crates, sample_iteration, key_a, key_b, blob, key_a-short, blob-IsStored, empty_files,
}

abbrev two_keys : System
two_keys = record empty_files {
  db_file = header_bytes 0 (100 ∷ []) ++ (1 ∷ 2 ∷ []);
  fields = (key_a, blob) ∷ (key_b, blob) ∷ [];
}

update_record_count-header_bytes_example :
    update_record_count sample_iteration two_keys
    ≡ (ok tt, record two_keys { db_file = header_bytes 2 (100 ∷ []) ++ (1 ∷ 2 ∷ []) })
update_record_count-header_bytes_example =
    update_record_count-header_bytes sample_iteration two_keys 0 (100 ∷ []) (1 ∷ 2 ∷ []) refl refl

abbrev one_record : System
one_record = record empty_files {
  db_file = (7 ∷ 7 ∷ []) ++ (record_bytes sample_crates (live key_a blob) ++ (8 ∷ []));
}

write_tombstone-record_bytes_example :
    write_tombstone (some (index_entry 2 key_a blob)) DbDeleter.new one_record ≡ (
      ok DbDeleter.new,
      record one_record {
        db_file =
            (7 ∷ 7 ∷ [])
            ++ (record_bytes sample_crates (dead 1 (length (bytes_from_field blob) % 2 ^ 32))
                ++ (8 ∷ []));
      },
    )
write_tombstone-record_bytes_example =
    write_tombstone-record_bytes sample_crates key_a blob one_record (7 ∷ 7 ∷ []) (8 ∷ [])
      (key_a-short, blob-IsStored) refl refl
