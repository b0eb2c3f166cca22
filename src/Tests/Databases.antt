-- ===== src/Tests/Databases.antt =====
-- The database at concrete files.
use peach_db.Base.{ℕ, ◌≡◌, ◌≢◌, ◌<◌, ◌≤◌, refl, List, [], ◌∷◌, none, some, arith, length}
use peach_db.Base.Words.{Bytes}
use peach_db.Base.HashMap
use peach_db.Error.{ok, err, io, other, unexpected_eof}
use peach_db.Dtypes.Key.{Key}
use peach_db.Dtypes.Codec.{bytes_from_field}
use peach_db.Db.WalCodec.{WalEntry, set, delete}
use peach_db.Db.WalCodec.RoundTrip.{entry_bytes}
use peach_db.Db.System.{System, fails}
use peach_db.Db.Database.{get, set_key, delete_key}
use peach_db.Db.Database.Open.{open_database}
use peach_db.Db.Database.Durable.{IsDurable, set_key-IsDurable, delete_key-IsDurable}
use peach_db.Db.Database.Reopen.{crash, open_database-crash, torn_set_key}
use peach_db.Db.Database.Fresh.{open_database-fresh}
use peach_db.Tests.Sample.{
  sample_crates, key_a, key_b, blob, key_a-short, blob-IsStored, empty_files,
}

abbrev db_name : Bytes
db_name = 100 ∷ 98 ∷ []

db_name-short : length db_name ≤ 64
db_name-short = omega arith

abbrev fresh : System
fresh = (open_database sample_crates db_name empty_files).1

abbrev writes : List WalEntry
writes = set key_a blob ∷ set key_b blob ∷ delete key_a ∷ []

fresh-IsDurable : IsDurable sample_crates fresh
fresh-IsDurable =
    (open_database-fresh sample_crates db_name empty_files refl refl refl refl db_name-short).3

open_database-crash_example :
    ((open_database sample_crates db_name (crash fresh)).0 ≡ ok tt)
    × ((k : Key)
        → (get k (open_database sample_crates db_name (crash fresh)).1).0 ≡ (get k fresh).0)
    × IsDurable sample_crates (open_database sample_crates db_name (crash fresh)).1
open_database-crash_example =
    open_database-crash sample_crates fresh fresh-IsDurable db_name db_name-short

fresh-calm : fresh.fates ≡ []
fresh-calm =
    (open_database-fresh sample_crates db_name empty_files refl refl refl refl db_name-short).2

open_database-fresh_example :
    ((open_database sample_crates db_name empty_files).0 ≡ ok tt)
    × ((k : Key) → HashMap.get k fresh.fields ≡ none)
    × (fresh.fates ≡ [])
    × IsDurable sample_crates fresh
open_database-fresh_example =
    open_database-fresh sample_crates db_name empty_files refl refl refl refl db_name-short

set_key-IsDurable_example :
    ((set_key key_a blob fresh).0 ≡ ok tt) × IsDurable sample_crates (set_key key_a blob fresh).1
set_key-IsDurable_example =
    set_key-IsDurable sample_crates fresh fresh-IsDurable fresh-calm key_a blob key_a-short
      blob-IsStored

delete_key-IsDurable_example :
    ((delete_key key_a fresh).0 ≡ ok tt) × IsDurable sample_crates (delete_key key_a fresh).1
delete_key-IsDurable_example =
    delete_key-IsDurable sample_crates fresh fresh-IsDurable fresh-calm key_a key_a-short

-- The disk fails after three bytes of the next write.
abbrev tearing : System
tearing = record fresh { fates = fails other 3 ∷ [] }

tearing-IsDurable : IsDurable sample_crates tearing
tearing-IsDurable = record {
  record_count = fresh-IsDurable.record_count;
  name = fresh-IsDurable.name;
  records = fresh-IsDurable.records;
  loaded = fresh-IsDurable.loaded;
  count_fits = fresh-IsDurable.count_fits;
  records_valid = fresh-IsDurable.records_valid;
  entries_valid = fresh-IsDurable.entries_valid;
  db = fresh-IsDurable.db;
  log = fresh-IsDurable.log;
  index = fresh-IsDurable.index;
  view = fresh-IsDurable.view;
}

three_of_entry : 3 < length (entry_bytes (set key_a blob))
unfolding bytes_from_field peach_db.Base.Words.to_le_bytes
three_of_entry = omega arith

torn_set_key_example :
    ((set_key key_a blob tearing).0 ≡ err (io other))
    × ((open_database sample_crates db_name (crash (set_key key_a blob tearing).1)).0
        ≡ err (io unexpected_eof))
torn_set_key_example =
    torn_set_key sample_crates tearing tearing-IsDurable key_a blob 3 other [] db_name key_a-short
      blob-IsStored refl (omega arith) three_of_entry db_name-short
