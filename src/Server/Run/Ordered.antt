-- ===== src/Server/Run/Ordered.antt =====
-- The connections of src/server/server.rs, interleaved so that no change of a key overtakes another.
use peach_db.Base.{
  ◌≡◌, ◌≤◌, refl, sym, ap, ◌∙◌, subst, false, Option, none, some, List, [], ◌∷◌, ◌++◌, All, length,
  inl, inr,
}
use peach_db.Base.Words.{Bytes}
use peach_db.Base.HashMap
use peach_db.Base.HashMap.{key_eq}
use peach_db.Error.{ok, PeachDbError}
use peach_db.Cursor.{Crates}
use peach_db.Dtypes.Key.{Key}
use peach_db.Dtypes.Field.{Field}
use peach_db.Db.WalCodec.{WalEntry}
use peach_db.Db.Database.{Iteration, get, found}
use peach_db.Db.Database.Open.{open_database}
use peach_db.Db.Database.Flush.{entry_key}
use peach_db.Db.Database.Durable.{IsDurable}
use peach_db.Db.Database.Reopen.{crash}
use peach_db.Db.Database.History.{last_write-append, last_write}
use peach_db.Server.Protocol.{ok_response}
use peach_db.Server.Connection.{answer, serve_turn}
use peach_db.Server.Run.{
  Task, serving, storing, Server, bound, accepted, task_after, store, Step, bind, accept, turn, log,
  stores, Reach, start, next,
}
use peach_db.Server.Run.Apart.{
  Differs, IsApart, last_write-behind, last_write-before, last_write-other, IsApart-insert,
  IsApart-remove,
}
use peach_db.Server.Run.Waiting.{
  waiting, waiting-append, waiting-none, waiting-at, task_after-waits,
}
use peach_db.Server.Run.Crash.{Reach-crash}
use mathlib.Core.List.{append-nil}

module _ (crates : Crates) (to_string : PeachDbError → Bytes) (it : Iteration) where
  -- No change is logged while another of its key waits to be stored.
  abbrev pub IsAlone :
      {a b : Server} {ws vs : List WalEntry} → Step crates to_string it a ws vs b → Type 0
  IsAlone {a} (log before behind c w c' here asked done) = All (Differs w) (waiting a.tasks)
  IsAlone {a} _ = Unit

  abbrev pub IsRaceFree :
      {a b : Server} {ws vs : List WalEntry} → Reach crates to_string it a ws vs b → Type 0
  IsRaceFree start = Unit
  IsRaceFree (next r st) = IsRaceFree r × IsAlone st

  -- What was logged is what was stored and then what waits.
  record Ordered (ws vs us : List WalEntry) : Type 0 where
    apart : IsApart us
    order : (k : Key) (x : Option Field) → last_write k x ws ≡ last_write k (last_write k x vs) us

  logs-Ordered :
      (ws vs p q : List WalEntry) (w : WalEntry)
      → Ordered ws vs (p ++ q)
      → All (Differs w) (p ++ q)
      → Ordered (ws ++ w ∷ []) vs (p ++ w ∷ q)
  logs-Ordered ws vs p q w h alone =
      let (apart, back) = IsApart-insert w p q h.apart alone in
      record {
        apart = apart;
        order = λ k x.
            last_write-append k x ws (w ∷ [])
            ∙ ap (λ o. last_write k o (w ∷ [])) (h.order k x)
            ∙ sym (last_write-behind k (last_write k x vs) w p q back);
      }

  stores-Ordered :
      (ws vs p q : List WalEntry) (w : WalEntry)
      → Ordered ws vs (p ++ w ∷ q)
      → Ordered ws (vs ++ w ∷ []) (p ++ q)
  stores-Ordered ws vs p q w h =
      let (apart, front) = IsApart-remove w p q h.apart in
      record {
        apart = apart;
        order = λ k x.
            h.order k x
            ∙ last_write-before k (last_write k x vs) w p q front
            ∙ ap (λ o. last_write k o (p ++ q)) (sym (last_write-append k x vs (w ∷ [])));
      }

  regroup :
      (ws vs us ws' vs' us' : List WalEntry)
      → ws' ≡ ws
      → vs' ≡ vs
      → us' ≡ us
      → Ordered ws vs us
      → Ordered ws' vs' us'
  regroup ws vs us ws' vs' us' e f g h = rw (e, f, g) h

  quiet :
      (ws vs : List WalEntry) (ts us : List Task)
      → waiting us ≡ waiting ts
      → Ordered ws vs (waiting ts)
      → Ordered (ws ++ []) (vs ++ []) (waiting us)
  quiet ws vs ts us e h =
      regroup ws vs (waiting ts) (ws ++ []) (vs ++ []) (waiting us) (append-nil ws) (append-nil vs)
        e h

  Step-Ordered :
      {b c : Server} (ws vs : List WalEntry) {ws' vs' : List WalEntry}
      → Ordered ws vs (waiting b.tasks)
      → (st : Step crates to_string it b ws' vs' c) → IsAlone st
      → Ordered (ws ++ ws') (vs ++ vs') (waiting c.tasks)
  unfolding bound accepted
  Step-Ordered {b} ws vs h (bind none e) alone = quiet ws vs b.tasks b.tasks refl h
  Step-Ordered {b} ws vs h (bind (some kind) e) alone = quiet ws vs b.tasks b.tasks refl h
  Step-Ordered {b} ws vs h (accept (inl c) e good) alone =
      quiet ws vs b.tasks (b.tasks ++ serving c ∷ [])
        (waiting-append b.tasks (serving c ∷ []) ∙ append-nil (waiting b.tasks)) h
  Step-Ordered {b} ws vs h (accept (inr kind) e good) alone = quiet ws vs b.tasks b.tasks refl h
  Step-Ordered {b} ws vs h (turn before behind c here whole) alone =
      let t = serve_turn crates to_string it c b.db in
      quiet ws vs b.tasks (before ++ task_after t ∷ behind)
        (waiting-none before behind (task_after t) (task_after-waits t)
          ∙ sym (waiting-at b before behind (serving c) here))
        h
  Step-Ordered {b} ws vs h (log before behind c w c' here asked done) alone =
      let at = waiting-at b before behind (serving c) here in
      regroup (ws ++ w ∷ []) vs _ (ws ++ w ∷ []) (vs ++ []) _ refl (append-nil vs)
        (waiting-append before (storing w c' ∷ behind))
        (logs-Ordered ws vs (waiting before) (waiting behind) w (subst (Ordered ws vs) at h)
          (subst (All (Differs w)) at alone))
  Step-Ordered {b} ws vs h (stores before behind w c here) alone =
      let t = answer crates to_string it (ok (ok_response none)) (store w b.db) c in
      regroup ws (vs ++ w ∷ []) _ (ws ++ []) (vs ++ w ∷ []) _ (append-nil ws) refl
        (waiting-none before behind (task_after t) (task_after-waits t))
        (stores-Ordered ws vs (waiting before) (waiting behind) w
          (subst (Ordered ws vs) (waiting-at b before behind (storing w c) here) h))

  Reach-Ordered :
      {a b : Server} {ws vs : List WalEntry}
      → a.tasks ≡ []
      → (r : Reach crates to_string it a ws vs b) → IsRaceFree r
      → Ordered ws vs (waiting b.tasks)
  Reach-Ordered idle start free =
      subst (λ ts. Ordered [] [] (waiting ts)) (sym idle)
        (record { apart = tt; order = λ k x. refl })
  Reach-Ordered idle (next r st) (free, alone) =
      Step-Ordered _ _ (Reach-Ordered idle r free) st alone

  -- Where no system call fails and no change is logged while another change of its key waits to be stored, a crash of a server on
  -- a durable database does not show for any key of which no change waits: the files open under any name of at most 64 bytes, and `get` answers
  -- what it answered before.
  pub Reach-get :
      (a b : Server) (ws vs : List WalEntry) (name : Bytes) (k : Key)
      → IsDurable crates a.db
      → a.db.fates ≡ []
      → a.tasks ≡ []
      → length name ≤ 64
      → (r : Reach crates to_string it a ws vs b) → IsRaceFree r
      → All (λ w. key_eq (entry_key w) k ≡ false) (waiting b.tasks)
      → ((open_database crates name (crash b.db)).0 ≡ ok tt)
        × ((get k (open_database crates name (crash b.db)).1).0 ≡ (get k b.db).0)
  Reach-get a b ws vs name k durable calm idle short r free settled =
      let (waits_for, opened, reads) =
        Reach-crash crates to_string it a b ws vs name durable calm idle short r in
      let (now, later) = reads k in
      (
        opened,
        later
            ∙ ap found (
                (Reach-Ordered idle r free).order k (HashMap.get k a.db.fields)
                ∙ last_write-other k _ (waiting b.tasks) settled)
            ∙ sym now,
      )
