-- ===== src/Server/Run/Crash.antt =====
-- The connections of src/server/server.rs, interleaved: what `get` answers, and what a crash leaves.
use peach_db.Base.{◌≡◌, ◌≤◌, ap, ◌∙◌, List, [], ◌++◌, length}
use peach_db.Base.Words.{Bytes}
use peach_db.Base.HashMap
use peach_db.Base.HashMap.{key_eq}
use peach_db.Error.{ok, PeachDbError}
use peach_db.Cursor.{Crates}
use peach_db.Dtypes.Key.{Key}
use peach_db.Db.WalCodec.{WalEntry}
use peach_db.Db.Database.{Iteration, get, found}
use peach_db.Db.Database.Open.{open_database}
use peach_db.Db.Database.Durable.{IsDurable}
use peach_db.Db.Database.Reopen.{crash, open_database-crash}
use peach_db.Db.Database.History.{run_writes, last_write, run_writes-IsDurable}
use peach_db.Server.Run.{Server, Reach}
use peach_db.Server.Run.Waiting.{waiting}
use peach_db.Server.Run.LogSteps.{Reach-Logs}
use mathlib.Core.List.{Perm}

module _ (crates : Crates) (to_string : PeachDbError → Bytes) (it : Iteration) where
  -- However the connections of a server on a durable database are interleaved, where no system call
  -- fails: what was stored, with what waits to be stored, is what was logged; `get` answers for every
  -- key by the last entry that was stored; and after a crash at that point the files open under any
  -- name of at most 64 bytes, and `get` answers by the last entry that was logged.
  pub Reach-crash :
      (a b : Server) (ws vs : List WalEntry) (name : Bytes)
      → IsDurable crates a.db
      → a.db.fates ≡ []
      → a.tasks ≡ []
      → length name ≤ 64
      → Reach crates to_string it a ws vs b
      → Perm ws (vs ++ waiting b.tasks)
        × ((open_database crates name (crash b.db)).0 ≡ ok tt)
        × ((k : Key)
            → ((get k b.db).0 ≡ found (last_write k (HashMap.get k a.db.fields) vs))
              × ((get k (open_database crates name (crash b.db)).1).0
                  ≡ found (last_write k (HashMap.get k a.db.fields) ws)))
  unfolding get
  Reach-crash a b ws vs name durable calm idle short reached =
      let logs = Reach-Logs crates to_string it calm idle reached in
      let (durable_after, view) = run_writes-IsDurable crates ws a.db durable calm logs.valid in
      let (opened, reads, still) =
        open_database-crash crates (run_writes ws a.db) durable_after name short in
      let same = ap crash logs.files in
      (
        logs.waits_for,
        ap (λ t. (open_database crates name t).0) same ∙ opened,
        λ k. (
          ap found (logs.memory k),
          ap (λ t. (get k (open_database crates name t).1).0) same ∙ reads k ∙ ap found (view k),
        ),
      )
