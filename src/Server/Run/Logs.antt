-- ===== src/Server/Run/Logs.antt =====
-- The connections of src/server/server.rs, interleaved: what is logged, and what is stored.
use peach_db.Base.{◌≡◌, refl, sym, ap, ◌∙◌, subst, List, [], ◌∷◌, ◌++◌, All}
use peach_db.Base.Words.{IsByte}
use peach_db.Base.HashMap
use peach_db.Dtypes.Key.{Key}
use peach_db.Dtypes.Codec.DecodedElements.{All-snoc}
use peach_db.Db.WalCodec.{WalEntry, set, delete}
use peach_db.Db.WalCodec.RoundTrip.{IsEntry}
use peach_db.Db.System.{System}
use peach_db.Db.Database.Durable.{logged, apply_entry, All-append}
use peach_db.Db.Database.History.{
  last_write-append, run_writes, write_lem, last_write, last_write-apply,
}
use peach_db.Server.Connection.{Connection}
use peach_db.Server.Run.{Task, serving, storing, Server, Listener, store}
use peach_db.Server.Run.Turns.{IsTask}
use mathlib.Core.List.{append-nil, Perm}
use peach_db.Server.Run.Waiting.{
  waits, waiting, waiting-append, waiting-at, waiting-none, All-split, All-join, perm_logs,
  perm_stores,
}

run_writes-append :
    (ws vs : List WalEntry) (s : System) → run_writes (ws ++ vs) s ≡ run_writes vs (run_writes ws s)
run_writes-append [] vs s = refl
run_writes-append (w ∷ ws) vs s = run_writes-append ws vs _

store-eq : (w : WalEntry) (s : System) → store w s ≡ record s { fields = apply_entry w s.fields }
store-eq (set key field) s = refl
store-eq (delete key) s = refl

-- The state of a server that began at `a`: the files and the log are those of the calls in the order
-- of the log, and the values in memory those of the stores in their order.
pub record Logs (a : Server) (ws vs : List WalEntry) (b : Server) : Type 0 where
  pub calm : b.db.fates ≡ []
  pub valid : All IsEntry ws
  pub files : b.db ≡ record (run_writes ws a.db) { fields = b.db.fields }
  pub memory : (k : Key) → HashMap.get k b.db.fields ≡ last_write k (HashMap.get k a.db.fields) vs
  pub waits_for : Perm ws (vs ++ waiting b.tasks)
  pub sound : All IsTask b.tasks

module _ (a : Server) (ws vs : List WalEntry) (b : Server) (h : Logs a ws vs b) where
  -- A task that leaves the database as it is has moved on.
  pub moved :
      (before behind : List Task) (c : Connection) (u : Task)
      → b.tasks ≡ before ++ serving c ∷ behind
      → waits u ≡ []
      → IsTask u
      → Logs a ws vs (record b { tasks = before ++ u ∷ behind })
  moved before behind c u here no_u good =
      let (front, at, back) =
        All-split IsTask before (serving c) behind (subst (All IsTask) here h.sound) in
      record {
        calm = h.calm;
        valid = h.valid;
        files = h.files;
        memory = h.memory;
        waits_for =
            subst (λ l. Perm ws (vs ++ l))
              (waiting-at b before behind (serving c) here
                ∙ sym (waiting-none before behind u no_u))
              h.waits_for;
        sound = All-join IsTask before u behind front good back;
      }

  pub Logs-logged :
      (before behind : List Task) (w : WalEntry) (c c' : Connection)
      → b.tasks ≡ before ++ serving c ∷ behind
      → IsEntry w
      → All IsByte c'.input
      → Logs a
          (ws ++ w ∷ [])
          vs
          (record b { db = logged w b.db; tasks = before ++ storing w c' ∷ behind })
  Logs-logged before behind w c c' here good rest =
      let (front, at, back) =
        All-split IsTask before (serving c) behind (subst (All IsTask) here h.sound) in
      record {
        calm = h.calm;
        valid = All-append ws w h.valid good;
        files =
            ap (logged w) h.files
            ∙ sym (
                ap (λ (t : System). record t { fields = b.db.fields })
                  (run_writes-append ws (w ∷ []) a.db
                    ∙ write_lem w (run_writes ws a.db)
                        (sym (ap (λ (s : System). s.fates) h.files) ∙ h.calm)));
        memory = h.memory;
        waits_for =
            subst (λ l. Perm (ws ++ w ∷ []) (vs ++ l))
              (sym (waiting-append before (storing w c' ∷ behind)))
              (perm_logs w ws vs (waiting before) (waiting behind) (
                subst (λ l. Perm ws (vs ++ l)) (waiting-at b before behind (serving c) here)
                  h.waits_for));
        sound = All-join IsTask before (storing w c') behind front (good, rest) back;
      }

  pub Logs-stored :
      (before behind : List Task) (w : WalEntry) (c : Connection) (u : Task)
      → b.tasks ≡ before ++ storing w c ∷ behind
      → waits u ≡ []
      → IsTask u
      → Logs a ws (vs ++ w ∷ []) (record b { db = store w b.db; tasks = before ++ u ∷ behind })
  Logs-stored before behind w c u here no_u good =
      let (front, at, back) =
        All-split IsTask before (storing w c) behind (subst (All IsTask) here h.sound) in
      subst (λ s. Logs a ws (vs ++ w ∷ []) (record b { db = s; tasks = before ++ u ∷ behind }))
        (sym (store-eq w b.db))
        (record {
          calm = h.calm;
          valid = h.valid;
          files = ap (λ (s : System). record s { fields = apply_entry w b.db.fields }) h.files;
          memory = λ k.
              last_write-apply k w [] b.db.fields
              ∙ ap (λ o. last_write k o (w ∷ [])) (h.memory k)
              ∙ sym (last_write-append k (HashMap.get k a.db.fields) vs (w ∷ []));
          waits_for =
              subst (λ l. Perm ws ((vs ++ w ∷ []) ++ l)) (sym (waiting-none before behind u no_u))
                (perm_stores w ws vs (waiting before) (waiting behind) (
                  subst (λ l. Perm ws (vs ++ l)) (waiting-at b before behind (storing w c) here)
                    h.waits_for));
          sound = All-join IsTask before u behind front good back;
        })

  pub listens : (l : Listener) → Logs a ws vs (record b { listener = l })
  listens l = record {
    calm = h.calm;
    valid = h.valid;
    files = h.files;
    memory = h.memory;
    waits_for = h.waits_for;
    sound = h.sound;
  }

  pub joined :
      (c : Connection)
      → All IsByte c.input
      → Logs a ws vs (record b { tasks = b.tasks ++ serving c ∷ [] })
  joined c good = record {
    calm = h.calm;
    valid = h.valid;
    files = h.files;
    memory = h.memory;
    waits_for =
        subst (λ l. Perm ws (vs ++ l))
          (sym (waiting-append b.tasks (serving c ∷ []) ∙ append-nil (waiting b.tasks)))
          h.waits_for;
    sound = All-snoc IsTask b.tasks h.sound good;
  }

pub regroup :
    (a : Server) (ws vs ws' vs' : List WalEntry) (b : Server)
    → ws' ≡ ws
    → vs' ≡ vs
    → Logs a ws vs b
    → Logs a ws' vs' b
regroup a ws vs ws' vs' b e f h = rw (e, f) h

pub quiet :
    (a : Server) (ws vs : List WalEntry) (b : Server)
    → Logs a ws vs b
    → Logs a (ws ++ []) (vs ++ []) b
quiet a ws vs b h = regroup a ws vs (ws ++ []) (vs ++ []) b (append-nil ws) (append-nil vs) h
