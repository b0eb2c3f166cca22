-- ===== src/Db/Database/Events.antt =====
-- A history of a `Database` of src/db/db.rs: writes, flushes, and crashes with a new opening.
pub mod Held
pub mod Kept
pub mod Answers
use peach_db.Base.{
  ℕ, ◌+◌, ◌≤◌, ◌<◌, ◌^◌, ◌≡◌, refl, sym, ap, ◌∙◌, subst, arith, Option, some, none, List, [], ◌∷◌,
  ◌++◌, length, All, ◌⊎◌, inl, inr,
}
use peach_db.Base.Words.{Bytes}
use peach_db.Base.HashMap
use peach_db.Base.HashMap.{HashMap}
use peach_db.Error.{Outcome, ok}
use peach_db.Cursor.{Crates}
use peach_db.Dtypes.Key.{Key}
use peach_db.Db.WalCodec.{WalEntry, set, delete}
use peach_db.Db.WalCodec.RoundTrip.{IsEntry}
use peach_db.Db.System.{System, Exec}
use peach_db.Db.Database.{Iteration, get, found, set_key, delete_key}
use peach_db.Db.Database.Open.{open_database}
use peach_db.Db.Database.Durable.{
  IsDurable, apply_entry, logged, append_entry-logged, logged-IsDurable,
}
use peach_db.Db.Database.Reopen.{
  crash, reopened, reopened-IsDurable, open_database-eq-reopened, open_database-crash,
}
use peach_db.Db.Database.Flush.{net_entries, flush}
use peach_db.Db.Database.FlushReads.{net, net-IsDistinct, get-flush}
use peach_db.Db.Database.FlushDone.{length-flush, IsIndexed, flushed, flush-flushed, log-IsNet}
use peach_db.Db.Database.FlushDurable.{after_records, left}
use peach_db.Db.Database.Located.{lives, sizes}
use peach_db.Db.Database.Written.{written}
use peach_db.Db.Database.Room.{log_size, log_size-append, sizes-written, weigh-net}
use peach_db.Db.Database.History.{
  found-injective, last_write-append, write, write_lem, last_write, last_write-apply,
}
use peach_db.Db.Database.Unflushed.{
  fresh, fresh-IsUnflushed, open_database-eq-fresh, unflushed-IsDurable, unflushed-IsIndexed,
}
use peach_db.Db.Database.Lives.{pending, lives_after, get-net_entries-append, lives-written}

pub data Event : Type 0 where
  does : WalEntry → Event
  flushes : Event
  reopens : Event

abbrev pub writes : List Event → List WalEntry
writes [] = []
writes (does w ∷ es) = w ∷ writes es
writes (flushes ∷ es) = writes es
writes (reopens ∷ es) = writes es

-- A key that the log deletes in the end has at most one live record.
abbrev pub IsDeletable : Option WalEntry → ℕ → Type 0
IsDeletable none n = Unit
IsDeletable (some (set key field)) n = Unit
IsDeletable (some (delete key)) n = n ≤ 1

-- No flush of the history deletes a key while two records of it are live. A flush adds a record for a
-- key that was set last, and removes the only one of a key that was deleted last.
abbrev pub IsSingle : Key → Option WalEntry → ℕ → List Event → Type 0
IsSingle k held n [] = Unit
IsSingle k held n (does w ∷ es) = IsSingle k (pending k w held) n es
IsSingle k held n (flushes ∷ es) = IsDeletable held n × IsSingle k none (lives_after held n) es
IsSingle k held n (reopens ∷ es) = IsSingle k held n es

module _ (crates : Crates) (it : Iteration) (name : Bytes) where
  -- A crash forgets what is in memory; the files are opened again.
  abbrev pub run_event : Event → Exec (Unit {0})
  run_event (does w) s = write w s
  run_event flushes s = flush crates it s
  run_event reopens s = open_database crates name (crash s)

  abbrev pub run_events : List Event → System → System
  run_events [] s = s
  run_events (e ∷ es) s = run_events es (run_event e s).1

  abbrev pub AllSucceed : List Event → System → Type 0
  AllSucceed [] s = Unit
  AllSucceed (e ∷ es) s = ((run_event e s).0 ≡ ok tt) × AllSucceed es (run_event e s).1
