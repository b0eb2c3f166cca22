-- ===== src/Main/Restarts.antt =====
-- `main` of src/main.rs, started again and again on the files that it left.
use peach_db.Base.{
  ℕ, ◌≤◌, ◌<◌, ◌≡◌, refl, sym, ap, ◌∙◌, subst, none, List, [], ◌∷◌, ◌++◌, arith, length, take,
}
use peach_db.Base.Words.{Bytes}
use peach_db.Base.HashMap
use peach_db.Error.{ok, err, io, IoErrorKind, unexpected_eof, PeachDbError}
use peach_db.Cursor.{Crates}
use peach_db.Dtypes.Key.{Key}
use peach_db.Db.WalCodec.{WalEntry, decode_wal}
use peach_db.Db.WalCodec.RoundTrip.{IsEntry, entry_bytes}
use peach_db.Db.Wal.{append_entry}
use peach_db.Db.System.{System, fails}
use peach_db.Db.Database.{Iteration, get, found}
use peach_db.Db.Database.Open.{open_database}
use peach_db.Db.Database.Durable.{IsDurable}
use peach_db.Db.Database.Reopen.{
  append_entry_torn, torn_log, open_unreadable, crash, reopened, reopened-IsDurable,
  open_database-eq-reopened,
}
use peach_db.Db.Database.History.{last_write-append, run_writes, last_write, run_writes-IsDurable}
use peach_db.Db.Database.Unflushed.{
  fresh, fresh-IsUnflushed, open_database-eq-fresh, unflushed-IsDurable,
}
use peach_db.Server.Run.{Server, new, Reach}
use peach_db.Server.Run.LogSteps.{Reach-Logs}
use peach_db.Main.{database_name, address, main, Lives, first, again}

pub database_name-short : length database_name ≤ 64
database_name-short = omega arith

pub main-opened :
    (crates : Crates) (s t : System)
    → open_database crates database_name s ≡ (ok tt, t)
    → main crates s ≡ ok (new address t)
unfolding main
main-opened crates s t opened = rw opened

main-refused :
    (crates : Crates) (s : System) {e : PeachDbError}
    → (open_database crates database_name s).0 ≡ err e
    → main crates s ≡ err e
unfolding main
main-refused crates s refused = rw refused

same_server : {a b : Server} → ok a ≡ ok b → a ≡ b
same_server h = cc h

-- A server that has just started, and what was logged until then.
record Starts (crates : Crates) (ws : List WalEntry) (a : Server) : Type 0 where
  durable : IsDurable crates a.db
  calm : a.db.fates ≡ []
  idle : a.tasks ≡ []
  view : (k : Key) → HashMap.get k a.db.fields ≡ last_write k none ws

module _ (crates : Crates) (to_string : PeachDbError → Bytes) (it : Iteration) where
  fresh-Starts : Starts crates [] (new address (fresh crates database_name))
  unfolding HashMap.get
  fresh-Starts = record {
    durable =
        unflushed-IsDurable crates database_name (fresh crates database_name)
          (fresh-IsUnflushed crates database_name);
    calm = refl;
    idle = refl;
    view = λ k. refl;
  }

  -- After any steps of its server the program starts again.
  next-Starts :
      {a b : Server} {ws vs us : List WalEntry}
      → Starts crates ws a
      → Reach crates to_string it a vs us b
      → (c : Server) × (main crates (crash b.db) ≡ ok c) × Starts crates (ws ++ vs) c
  unfolding reopened
  next-Starts {a} {b} {ws} {vs} {us} h reached =
      let logs = Reach-Logs crates to_string it h.calm h.idle reached in
      let (durable, view) = run_writes-IsDurable crates vs a.db h.durable h.calm logs.valid in
      let opened =
        ap (λ t. open_database crates database_name t) (ap crash logs.files)
        ∙ open_database-eq-reopened crates (run_writes vs a.db) durable database_name
            database_name-short in
      (
        new address (reopened crates (run_writes vs a.db) durable),
        main-opened crates (crash b.db) _ opened,
        record {
          durable = reopened-IsDurable crates (run_writes vs a.db) durable;
          calm = refl;
          idle = refl;
          view = λ k.
              sym (durable.view k)
              ∙ view k
              ∙ ap (λ o. last_write k o vs) (h.view k)
              ∙ sym (last_write-append k none ws vs);
        },
      )

  Lives-Starts :
      {a : Server} {ws : List WalEntry} → Lives crates to_string it a ws → Starts crates ws a
  Lives-Starts (first s no_db no_index no_wal calm started) =
      subst (Starts crates [])
        (same_server (
          sym (
            main-opened crates s _ (
              open_database-eq-fresh crates database_name s no_db no_index no_wal calm
                database_name-short))
          ∙ started))
        fresh-Starts
  Lives-Starts (again {ws = ws} {vs = vs} before reached started) =
      let (c, starts, h) = next-Starts (Lives-Starts before) reached in
      subst (Starts crates (ws ++ vs)) (same_server (sym starts ∙ started)) h

  -- The program is started on empty files, and then again and again on the files that it left, each
  -- time killed between two steps of its server, without failing system calls: however often it was
  -- started and however its connections were interleaved, it starts the next time, and `get` then
  -- answers for every key by the last entry that was logged in all its lives.
  pub Lives-main :
      {a b : Server} {ws vs us : List WalEntry}
      → Lives crates to_string it a ws
      → Reach crates to_string it a vs us b
      → (c : Server) × (main crates (crash b.db) ≡ ok c)
        × ((k : Key) → (get k c.db).0 ≡ found (last_write k none (ws ++ vs)))
  unfolding get
  Lives-main lives reached =
      let (c, starts, h) = next-Starts (Lives-Starts lives) reached in
      (c, starts, λ k. ap found (h.view k))

  -- If the program, after starts on empty files and on the files that it left as in `Lives` and any
  -- steps of its server, is killed inside the write of a well-formed entry to the log, after some of its
  -- bytes but not all, then it does not start on the files that are left: it ends with `UnexpectedEof`.
  pub Lives-append_entry :
      {a b : Server} {ws vs us : List WalEntry} (w : WalEntry) (n : ℕ) (kind : IoErrorKind)
      → Lives crates to_string it a ws
      → Reach crates to_string it a vs us b
      → IsEntry w
      → 0 < n
      → n < length (entry_bytes w)
      → main crates (crash (append_entry w (record b.db { fates = fails kind n ∷ [] })).1)
        ≡ err (io unexpected_eof)
  Lives-append_entry {a} {b} {ws} {vs} w n kind lives reached valid lo hi =
      let h = Lives-Starts lives in
      let logs = Reach-Logs crates to_string it h.calm h.idle reached in
      let (durable, view) = run_writes-IsDurable crates vs a.db h.durable h.calm logs.valid in
      let left : System = record b.db {
        wal_file = b.db.wal_file ++ take n (entry_bytes w);
        fates = [];
      } in
      ap (λ r. main crates (crash r.1))
        (append_entry_torn (record b.db { fates = fails kind n ∷ [] }) w n kind [] refl)
      ∙ main-refused crates (crash left) (
          open_unreadable crates left database_name database_name-short (
            ap (λ t. decode_wal crates (t.wal_file ++ take n (entry_bytes w))) logs.files
            ∙ torn_log crates (run_writes vs a.db) durable w n valid lo hi))
