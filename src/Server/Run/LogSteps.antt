-- ===== src/Server/Run/LogSteps.antt =====
-- The steps of src/server/server.rs, and what they log and store.
use peach_db.Base.{
  ◌≡◌, refl, sym, ap, subst, Option, none, some, List, [], ◌∷◌, ◌++◌, All, inl, inr,
}
use peach_db.Base.Words.{Bytes}
use peach_db.Error.{Outcome, ok, io, PeachDbError}
use peach_db.Cursor.{Crates}
use peach_db.Db.WalCodec.{WalEntry}
use peach_db.Db.System.{System}
use peach_db.Db.Wal.{append_entry}
use peach_db.Db.Database.{Iteration}
use peach_db.Db.Database.Durable.{append_entry-logged}
use peach_db.Server.Protocol.{ok_response}
use peach_db.Server.Connection.{Connection, answer, serve_turn}
use peach_db.Server.Run.{
  Task, serving, storing, Server, accepting, returned, bound, accepted, task_after, turned, store,
  next_write, IsWhole, Step, bind, accept, turn, log, stores, Reach, start, next,
}
use peach_db.Server.Run.Turns.{IsTask, answer-Leaves, serve_turn-Leaves, next_write-IsEntry}
use mathlib.Core.List.{append-nil, Perm}
use mathlib.Core.List.Perm
use peach_db.Server.Run.Waiting.{waiting, task_after-waits, All-split}
use peach_db.Server.Run.Logs.{
  Logs, moved, Logs-logged, Logs-stored, listens, joined, regroup, quiet,
}

module _ (crates : Crates) (to_string : PeachDbError → Bytes) (it : Iteration) where
  turn-Logs :
      (a : Server) (ws vs : List WalEntry) (b : Server) (before behind : List Task) (c : Connection)
      (o : Option (WalEntry × Connection))
      → Logs a ws vs b
      → b.tasks ≡ before ++ serving c ∷ behind
      → next_write crates c ≡ o
      → IsWhole o b.db
      → Logs a ws vs (turned before (serve_turn crates to_string it c b.db) behind b)
  turn-Logs a ws vs b before behind c (some (w, c')) h here e whole =
      absurd (whole (ap (λ r. r.0) (append_entry-logged w b.db h.calm)))
  turn-Logs a ws vs b before behind c none h here e whole =
      let (front, at, back) =
        All-split IsTask before (serving c) behind (subst (All IsTask) here h.sound) in
      let t = serve_turn crates to_string it c b.db in
      let (same, good) = serve_turn-Leaves crates to_string it c b.db at e in
      subst (λ s. Logs a ws vs (record b { db = s; tasks = before ++ task_after t ∷ behind }))
        (sym same) (moved a ws vs b h before behind c (task_after t) here (task_after-waits t) good)

  log-Logs :
      (a : Server) (ws vs : List WalEntry) (b : Server) (before behind : List Task) (c : Connection)
      (w : WalEntry) (c' : Connection)
      → Logs a ws vs b
      → b.tasks ≡ before ++ serving c ∷ behind
      → next_write crates c ≡ some (w, c')
      → Logs a
          (ws ++ w ∷ [])
          vs
          (record b { db = (append_entry w b.db).1; tasks = before ++ storing w c' ∷ behind })
  log-Logs a ws vs b before behind c w c' h here asked =
      let (front, at, back) =
        All-split IsTask before (serving c) behind (subst (All IsTask) here h.sound) in
      let (good, rest) = next_write-IsEntry crates to_string it c w c' at asked in
      subst
        (λ (r : Outcome (Unit {0}) × System).
          Logs a (ws ++ w ∷ []) vs (record b { db = r.1; tasks = before ++ storing w c' ∷ behind }))
        (sym (append_entry-logged w b.db h.calm))
        (Logs-logged a ws vs b h before behind w c c' here good rest)

  stores-Logs :
      (a : Server) (ws vs : List WalEntry) (b : Server) (before behind : List Task) (w : WalEntry)
      (c : Connection)
      → Logs a ws vs b
      → b.tasks ≡ before ++ storing w c ∷ behind
      → Logs a ws (vs ++ w ∷ []) (
          turned before
            (answer crates to_string it (ok (ok_response none)) (store w b.db) c)
            behind
            b)
  stores-Logs a ws vs b before behind w c h here =
      let (front, (valid, rest), back) =
        All-split IsTask before (storing w c) behind (subst (All IsTask) here h.sound) in
      let t = answer crates to_string it (ok (ok_response none)) (store w b.db) c in
      let (same, good) =
        answer-Leaves crates to_string it (ok (ok_response none)) (store w b.db) c rest in
      subst
        (λ s.
          Logs a ws (vs ++ w ∷ []) (record b { db = s; tasks = before ++ task_after t ∷ behind }))
        (sym same)
        (Logs-stored a ws vs b h before behind w c (task_after t) here (task_after-waits t) good)

  -- A step keeps it.
  Step-Logs :
      {a b c : Server} {ws vs ws' vs' : List WalEntry}
      → Logs a ws vs b
      → Step crates to_string it b ws' vs' c
      → Logs a (ws ++ ws') (vs ++ vs') c
  unfolding bound accepted
  Step-Logs {a} {b} {ws = ws} {vs = vs} h (bind none e) =
      quiet a ws vs _ (listens a ws vs b h accepting)
  Step-Logs {a} {b} {ws = ws} {vs = vs} h (bind (some kind) e) =
      quiet a ws vs _ (listens a ws vs b h (returned (io kind)))
  Step-Logs {a} {b} {ws = ws} {vs = vs} h (accept (inl c) e good) =
      quiet a ws vs _ (joined a ws vs b h c good)
  Step-Logs {a} {b} {ws = ws} {vs = vs} h (accept (inr kind) e good) =
      quiet a ws vs _ (listens a ws vs b h (returned (io kind)))
  Step-Logs {a} {b} {ws = ws} {vs = vs} h (turn before behind c here whole) =
      quiet a ws vs _ (turn-Logs a ws vs b before behind c _ h here refl whole)
  Step-Logs {a} {b} {ws = ws} {vs = vs} h (log before behind c w c' here asked done) =
      regroup a (ws ++ w ∷ []) vs (ws ++ w ∷ []) (vs ++ []) _ refl (append-nil vs)
        (log-Logs a ws vs b before behind c w c' h here asked)
  Step-Logs {a} {b} {ws = ws} {vs = vs} h (stores before behind w c here) =
      regroup a ws (vs ++ w ∷ []) (ws ++ []) (vs ++ w ∷ []) _ (append-nil ws) refl
        (stores-Logs a ws vs b before behind w c h here)

  start-Logs : (a : Server) → a.db.fates ≡ [] → a.tasks ≡ [] → Logs a [] [] a
  start-Logs a calm idle = record {
    calm = calm;
    valid = tt;
    files = refl;
    memory = λ k. refl;
    waits_for = subst (λ ts. Perm [] (waiting ts)) (sym idle) (Perm.refl []);
    sound = subst (All IsTask) (sym idle) tt;
  }

  pub Reach-Logs :
      {a b : Server} {ws vs : List WalEntry}
      → a.db.fates ≡ []
      → a.tasks ≡ []
      → Reach crates to_string it a ws vs b
      → Logs a ws vs b
  Reach-Logs {a} calm idle start = start-Logs a calm idle
  Reach-Logs calm idle (next r st) = Step-Logs (Reach-Logs calm idle r) st
