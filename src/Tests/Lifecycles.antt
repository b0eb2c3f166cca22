-- ===== src/Tests/Lifecycles.antt =====
-- A history of a database, at concrete writes, flushes and crashes.
use peach_db.Base.{◌+◌, ◌<◌, ◌^◌, ◌≡◌, refl, List, [], ◌∷◌, none, arith, Bool-cases, inl, inr}
use peach_db.Base.Keys.{bytes_eq}
use peach_db.Base.HashMap.{key_eq}
use peach_db.Error.{ok, err, key_not_found}
use peach_db.Dtypes.Key.{Key}
use peach_db.Base.Words.{to_le_bytes}
use peach_db.Dtypes.Codec.{bytes_from_field, bytes_from_primitive}
use peach_db.Db.WalCodec.{set, delete}
use peach_db.Db.System.{System}
use peach_db.Db.Database.{get}
use peach_db.Db.Database.Open.{open_database}
use peach_db.Db.Database.Reopen.{crash}
use peach_db.Db.Database.Room.{log_size}
use peach_db.Db.Database.Events.{
  Event, does, flushes, reopens, writes, IsSingle, run_events, AllSucceed,
}
use peach_db.Db.Database.Events.Answers.{get_after_events}
use peach_db.Tests.Sample.{
  sample_crates, sample_iteration, key_a, key_b, blob, number, key_a-short, key_b-short,
  blob-IsStored, empty_files,
}
use peach_db.Tests.Durability.{name, name-short, number-IsStored}

-- A key that is set, flushed and deleted, a crash with the deletion in the log, and a second flush.
abbrev history : List Event
history =
    does (set key_a blob)
    ∷ does (set key_b blob)
    ∷ flushes
    ∷ does (delete key_b)
    ∷ reopens
    ∷ flushes
    ∷ does (set key_a number)
    ∷ reopens
    ∷ []

history-IsSingle : (k : Key) → IsSingle k none 0 history
history-IsSingle k = elim (Bool-cases (key_eq key_a k)) [
  | inl a ↦ elim (Bool-cases (key_eq key_b k)) [
    | inl b ↦ rw (a, b) (tt, (omega arith, tt))
    | inr b ↦ rw (a, b) (tt, (tt, tt))
  ]
  | inr a ↦ elim (Bool-cases (key_eq key_b k)) [
    | inl b ↦ rw (a, b) (tt, (omega arith, tt))
    | inr b ↦ rw (a, b) (tt, (tt, tt))
  ]
]

history-small : 114 + log_size (writes history) < 2 ^ 64
unfolding bytes_from_field bytes_from_primitive to_le_bytes
history-small = omega arith

abbrev opened : System
opened = (open_database sample_crates name empty_files).1

abbrev ended : System
ended = run_events sample_crates sample_iteration name history opened

get_after_events_example :
    AllSucceed sample_crates sample_iteration name history opened
    × ((get key_a ended).0 ≡ ok number)
    × ((get key_b ended).0 ≡ err key_not_found)
    × ((get key_a (open_database sample_crates name (crash ended)).1).0 ≡ ok number)
unfolding bytes_eq
get_after_events_example =
    let (done, again, reads) =
      get_after_events sample_crates sample_iteration name empty_files history refl refl refl refl
        name-short
        (
          (key_a-short, blob-IsStored),
          ((key_b-short, blob-IsStored), (key_b-short, ((key_a-short, number-IsStored), tt))),
        )
        history-IsSingle history-small in
    (done, (reads key_a).0, (reads key_b).0, (reads key_a).1)
