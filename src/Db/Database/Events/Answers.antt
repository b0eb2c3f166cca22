-- ===== src/Db/Database/Events/Answers.antt =====
-- What a `Database` of src/db/db.rs answers after any history.
use peach_db.Base.{
  ◌+◌, ◌≤◌, ◌<◌, ◌^◌, ◌≡◌, refl, sym, ap, ◌∙◌, subst, arith, none, List, [], ◌∷◌, ◌++◌, length, All,
}
use peach_db.Base.Words.{Bytes}
use peach_db.Base.HashMap
use peach_db.Base.HashMap.{HashMap}
use peach_db.Error.{Outcome, ok}
use peach_db.Cursor.{Crates}
use peach_db.Dtypes.Key.{Key}
use peach_db.Db.WalCodec.{WalEntry}
use peach_db.Db.WalCodec.RoundTrip.{IsEntry}
use peach_db.Db.System.{System}
use peach_db.Db.Database.{Iteration, get, found}
use peach_db.Db.Database.Open.{open_database}
use peach_db.Db.Database.Reopen.{crash, open_database-crash}
use peach_db.Db.Database.Flush.{net_entries, flush}
use peach_db.Db.Database.Room.{log_size}
use peach_db.Db.Database.History.{last_write-append, write, last_write}
use peach_db.Db.Database.Unflushed.{
  fresh, fresh-IsUnflushed, open_database-eq-fresh, unflushed-IsDurable, unflushed-IsIndexed,
}
use peach_db.Db.Database.Events.{
  Event, does, flushes, reopens, writes, IsSingle, run_event, run_events, AllSucceed,
}
use peach_db.Db.Database.Events.Held.{Held, Steps, write-Steps}
use peach_db.Db.Database.Events.Kept.{flush-Steps, reopen-Steps}

module _ (crates : Crates) (it : Iteration) (name : Bytes) where
  -- A history from a held database: every event succeeds, and the last write to a key says what it
  -- holds.
  record Ends (es : List Event) (s : System) : Type 0 where
    succeed : AllSucceed crates it name es s
    held : Held crates it name [] (run_events crates it name es s)
    view :
        (k : Key)
        → HashMap.get k (run_events crates it name es s).fields
          ≡ last_write k (HashMap.get k s.fields) (writes es)

  Ends-cons :
      (e : Event) (w : List WalEntry) (es : List Event) (s : System)
      → w ++ writes es ≡ writes (e ∷ es)
      → Steps crates it name w es s (run_event crates it name e s)
      → Ends es (run_event crates it name e s).1
      → Ends (e ∷ es) s
  Ends-cons e w es s same step rest = record {
    succeed = (step.succeeds, rest.succeed);
    held = rest.held;
    view = λ k.
        rest.view k
        ∙ ap (λ o. last_write k o (writes es)) (step.view k)
        ∙ sym (last_write-append k (HashMap.get k s.fields) w (writes es))
        ∙ ap (last_write k (HashMap.get k s.fields)) same;
  }

  events-Ends :
      (es : List Event) (s : System)
      → length name ≤ 64
      → All IsEntry (writes es)
      → Held crates it name es s
      → Ends es s
  events-Ends [] s short valid h = record { succeed = tt; held = h; view = λ k. refl }
  events-Ends (does w ∷ es) s short (here, valid) h =
      let step = write-Steps crates it name w es s here h in
      Ends-cons (does w) (w ∷ []) es s refl step
        (events-Ends es (write w s).1 short valid step.held)
  events-Ends (flushes ∷ es) s short valid h =
      let step = flush-Steps crates it name es s h in
      Ends-cons flushes [] es s refl step
        (events-Ends es (flush crates it s).1 short valid step.held)
  events-Ends (reopens ∷ es) s short valid h =
      let step = reopen-Steps crates it name es s h short in
      Ends-cons reopens [] es s refl step
        (events-Ends es (open_database crates name (crash s)).1 short valid step.held)

  fresh-Held :
      (es : List Event)
      → ((k : Key) → IsSingle k none 0 es)
      → 114 + log_size (writes es) < 2 ^ 64
      → Held crates it name es (fresh crates name)
  unfolding unflushed-IsDurable
  fresh-Held es single room = record {
    durable = unflushed-IsDurable crates name (fresh crates name) (fresh-IsUnflushed crates name);
    indexed = unflushed-IsIndexed crates name (fresh crates name) (fresh-IsUnflushed crates name);
    calm = refl;
    few = λ k. unfold HashMap.get net_entries in single k;
    room = omega (arith, room);
  }

  abbrev Answers : List Event → System → Type 0
  Answers es s =
      let t = run_events crates it name es s in
      let again = open_database crates name (crash t) in
      AllSucceed crates it name es s
      × (again.0 ≡ ok tt)
      × ((k : Key)
          → ((get k t).0 ≡ found (last_write k none (writes es)))
            × ((get k again.1).0 ≡ found (last_write k none (writes es))))

  Ends-Answers :
      (es : List Event) (s : System)
      → length name ≤ 64
      → Ends es s
      → ((k : Key) → HashMap.get k s.fields ≡ none)
      → Answers es s
  unfolding get
  Ends-Answers es s short ends empty =
      let (again, same, still) =
        open_database-crash crates (run_events crates it name es s) ends.held.durable name short in
      let reads : (k : Key)
          → (get k (run_events crates it name es s)).0 ≡ found (last_write k none (writes es)) =
        λ k. ap found (ends.view k ∙ ap (λ o. last_write k o (writes es)) (empty k)) in
      (ends.succeed, again, λ k. (reads k, same k ∙ reads k))

  -- From empty files, under a name of at most 64 bytes and without faults: whatever sequence of
  -- well-formed writes, flushes, and crashes between the calls with a new opening follows, if no flush
  -- deletes a key while two records of it are live, and the records of all the `set`s take less than
  -- 2 ^ 64 bytes with the header, then every call succeeds, `get` answers for every key by the last
  -- write to it, and it does so again after one more crash and opening, which succeeds.
  pub get_after_events :
      (s : System) (es : List Event)
      → s.db_file ≡ []
      → s.index_file ≡ []
      → s.wal_file ≡ []
      → s.fates ≡ []
      → length name ≤ 64
      → All IsEntry (writes es)
      → ((k : Key) → IsSingle k none 0 es)
      → 114 + log_size (writes es) < 2 ^ 64
      → let opened = (open_database crates name s).1 in
        let t = run_events crates it name es opened in
        let again = open_database crates name (crash t) in
        AllSucceed crates it name es opened
        × (again.0 ≡ ok tt)
        × ((k : Key)
            → ((get k t).0 ≡ found (last_write k none (writes es)))
              × ((get k again.1).0 ≡ found (last_write k none (writes es))))
  get_after_events s es no_db no_index no_wal calm short valid single room =
      subst (λ (r : Outcome (Unit {0}) × System). Answers es r.1)
        (sym (open_database-eq-fresh crates name s no_db no_index no_wal calm short))
        (Ends-Answers es (fresh crates name) short
          (events-Ends es (fresh crates name) short valid (fresh-Held es single room))
          λ k. unfold HashMap.get in refl)
