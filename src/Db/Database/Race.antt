-- ===== src/Db/Database/Race.antt =====
-- Two calls of `set` of src/db/db.rs at once: the lock of the log is released before the lock of the
-- maps is taken, so the second may log and store between the first's log entry and its store.
use peach_db.Base.{◌≤◌, ◌≡◌, ap, ◌∙◌, [], length}
use peach_db.Base.HashMap.{key_eq_refl}
use peach_db.Base.HashMap.Laws.{get-insert}
use peach_db.Base.Words.{Bytes}
use peach_db.Error.{ok}
use peach_db.Cursor.{Crates}
use peach_db.Dtypes.Key.{Key}
use peach_db.Dtypes.Field.{Field}
use peach_db.Db.WalCodec.{set}
use peach_db.Db.WalCodec.RoundTrip.{IsKey, IsStored}
use peach_db.Db.System.{System}
use peach_db.Db.Wal.{append_entry}
use peach_db.Db.Database.{get, put_field, set_key}
use peach_db.Db.Database.Open.{open_database}
use peach_db.Db.Database.Durable.{IsDurable, logged, append_entry-logged, logged-IsDurable}
use peach_db.Db.Database.Reopen.{crash, open_database-crash}

module _ (crates : Crates) (s : System) (durable : IsDurable crates s) (calm : s.fates ≡ [])
    (key : Key) (first second : Field) where
  -- The states behind the log entry of the first call, all of the second, and the store of the first.
  abbrev pub first_logged : System
  first_logged = (append_entry (set key first) s).1

  abbrev pub second_done : System
  second_done = (set_key key second first_logged).1

  abbrev pub first_done : System
  first_done = put_field key first second_done

  -- The same files, with the values stored in the order of the log.
  abbrev in_order : System
  in_order =
      put_field key second
        (logged (set key second) (put_field key first (logged (set key first) s)))

  abbrev raced : System
  raced = put_field key second (logged (set key second) (logged (set key first) s))

  at_first : append_entry (set key first) s ≡ (ok tt, logged (set key first) s)
  at_first = append_entry-logged (set key first) s calm

  at_second : set_key key second first_logged ≡ (ok tt, raced)
  unfolding set_key
  at_second =
      ap (λ r. set_key key second r.1) at_first
      ∙ rw (append_entry-logged (set key second) (logged (set key first) s) calm)

  in_order-IsDurable : IsKey key → IsStored first → IsStored second → IsDurable crates in_order
  in_order-IsDurable short first_stored second_stored =
      logged-IsDurable crates (put_field key first (logged (set key first) s))
        (logged-IsDurable crates s durable calm (set key first) (short, first_stored)) calm
        (set key second) (short, second_stored)

  get-put_field : (field : Field) (t : System) → (get key (put_field key field t)).0 ≡ ok field
  unfolding get
  get-put_field field t = rw (get-insert key key field t.fields, key_eq_refl key)

  -- Two calls of `set` of one key, shorter than 2 ^ 16 bytes, with well-formed values shorter than
  -- 2 ^ 32 bytes, on a durable database without faults, where the second call runs between the log
  -- entry of the first and its store: both calls succeed, and `get` returns the value of the first. But
  -- after a crash the files open under any name of at most 64 bytes, and `get` returns the value of the
  -- second.
  pub get_raced :
      (name : Bytes)
      → IsKey key
      → IsStored first
      → IsStored second
      → length name ≤ 64
      → ((append_entry (set key first) s).0 ≡ ok tt)
        × ((set_key key second first_logged).0 ≡ ok tt)
        × ((get key first_done).0 ≡ ok first)
        × ((open_database crates name (crash first_done)).0 ≡ ok tt)
        × ((get key (open_database crates name (crash first_done)).1).0 ≡ ok second)
  get_raced name short first_stored second_stored fits =
      let (opened, reads, still) =
        open_database-crash crates in_order (in_order-IsDurable short first_stored second_stored)
          name fits in
      (
        ap (λ r. r.0) at_first,
        ap (λ r. r.0) at_second,
        get-put_field first second_done,
        ap (λ r. (open_database crates name (crash r.1)).0) at_second ∙ opened,
        ap (λ r. (get key (open_database crates name (crash r.1)).1).0) at_second
            ∙ reads key
            ∙ get-put_field second _,
      )
