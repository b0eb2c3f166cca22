-- ===== src/Tests/Files.antt =====
-- Files that no database wrote, at concrete contents.
use peach_db.Base.{◌≡◌, ◌≢◌, ◌++◌, [], ◌∷◌, refl, arith}
use peach_db.Base.Words.{Bytes, from_le_bytes, to_le_bytes}
use peach_db.Error.{err, diverged, interrupted}
use peach_db.Db.System.{System, done, fails}
use peach_db.Db.Database.Open.{open_database}
use peach_db.Db.Database.Ends.{open_database-ne-diverged}
use peach_db.Db.Database.Refused.{open_database-corrupted}
use peach_db.Db.Records.{live, records_bytes}
use peach_db.Db.Records.Header.{header_bytes}
use peach_db.Db.Records.Checksum.{IsCorrupted, corrupted_bytes, mismatch}
use peach_db.Db.WalCodec.{delete}
use peach_db.Db.WalCodec.RoundTrip.{log_bytes}
use peach_db.Tests.Sample.{
  sample_crates, key_a, key_b, blob, key_a-short, blob-IsStored, empty_files,
}
use peach_db.Tests.Durability.{name, name-short}

-- A cut log, a broken header, an index of one byte, and a call that fails.
abbrev broken : System
broken = record empty_files {
  db_file = 72 ∷ 101 ∷ [];
  index_file = 7 ∷ [];
  wal_file = 1 ∷ 0 ∷ [];
  fates = done ∷ done ∷ done ∷ fails interrupted 0 ∷ [];
}

open_database-ne-diverged_example : (open_database sample_crates name broken).0 ≢ diverged
open_database-ne-diverged_example = open_database-ne-diverged sample_crates name broken

-- A record whose payload has changed since its checksum was taken.
abbrev payload : Bytes
payload = 0 ∷ 1 ∷ 2 ∷ 4 ∷ []

payload-IsCorrupted : IsCorrupted sample_crates key_b.bytes payload 7
unfolding from_le_bytes to_le_bytes
payload-IsCorrupted = record {
  short = omega arith;
  small = omega arith;
  fits = omega arith;
  differs = λ p. omega arith;
}

abbrev damaged : System
damaged = record empty_files {
  db_file =
      header_bytes 2 name
      ++ (records_bytes sample_crates (live key_a blob ∷ [])
          ++ (corrupted_bytes key_b.bytes payload 7 ++ 9 ∷ 9 ∷ []));
  index_file = 1 ∷ [];
  wal_file = log_bytes (delete key_a ∷ []);
}

open_database-corrupted_example :
    ((open_database sample_crates name damaged).0 ≡ err mismatch)
    × ((open_database sample_crates name damaged).1.db_file ≡ damaged.db_file)
    × ((open_database sample_crates name damaged).1.index_file ≡ damaged.index_file)
    × ((open_database sample_crates name damaged).1.wal_file ≡ damaged.wal_file)
open_database-corrupted_example =
    open_database-corrupted sample_crates damaged (delete key_a ∷ []) 2 name (live key_a blob ∷ [])
      key_b.bytes payload 7 (9 ∷ 9 ∷ []) payload-IsCorrupted refl refl (key_a-short, tt) refl
      (omega arith) ((key_a-short, blob-IsStored), tt) name name-short
