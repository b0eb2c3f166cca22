-- ===== src/Tests/Interleavings.antt =====
-- Calls that overlap, at concrete files.
use peach_db.Base.{◌≡◌, refl}
use peach_db.Error.{ok}
use peach_db.Dtypes.Key.{Key}
use peach_db.Db.Wal.{append_entry, checkpoint}
use peach_db.Db.Database.{get, set_key, put_field}
use peach_db.Db.Database.Open.{open_database}
use peach_db.Db.Database.Reopen.{crash}
use peach_db.Db.Database.Flush.{flush_records}
use peach_db.Db.Database.Race.{get_raced}
use peach_db.Db.WalCodec.{set}
use peach_db.Db.Database.LostSet.{get_lost}
use peach_db.Db.System.{System}
use peach_db.Tests.Sample.{
  sample_crates, sample_iteration, key_b, key_b-short, blob, blob-IsStored, number,
}
use peach_db.Tests.Durability.{
  name, name-short, number-IsStored, stored, stored-IsDurable, stored-IsIndexed, stored_once,
  stored_near,
}

abbrev after_records : System
after_records = (flush_records sample_crates sample_iteration stored).1

abbrev after_checkpoint : System
after_checkpoint = (checkpoint (set_key key_b number after_records).1).1

get_lost_example :
    ((flush_records sample_crates sample_iteration stored).0 ≡ ok tt)
    × ((set_key key_b number after_records).0 ≡ ok tt)
    × ((checkpoint (set_key key_b number after_records).1).0 ≡ ok tt)
    × ((get key_b after_checkpoint).0 ≡ ok number)
    × ((open_database sample_crates name (crash after_checkpoint)).0 ≡ ok tt)
    × ((k : Key)
        → (get k (open_database sample_crates name (crash after_checkpoint)).1).0
          ≡ (get k stored).0)
get_lost_example =
    get_lost sample_crates sample_iteration stored stored-IsDurable stored-IsIndexed refl
      stored_once stored_near key_b number name name-short

abbrev first_logged : System
first_logged = (append_entry (set key_b number) stored).1

abbrev first_done : System
first_done = put_field key_b number (set_key key_b blob first_logged).1

get_raced_example :
    ((append_entry (set key_b number) stored).0 ≡ ok tt)
    × ((set_key key_b blob first_logged).0 ≡ ok tt)
    × ((get key_b first_done).0 ≡ ok number)
    × ((open_database sample_crates name (crash first_done)).0 ≡ ok tt)
    × ((get key_b (open_database sample_crates name (crash first_done)).1).0 ≡ ok blob)
get_raced_example =
    get_raced sample_crates stored stored-IsDurable refl key_b number blob name key_b-short
      number-IsStored blob-IsStored name-short
