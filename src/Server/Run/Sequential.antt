-- ===== src/Server/Run/Sequential.antt =====
-- The steps of src/server/server.rs and its sequential reading: a task that is not interrupted runs
-- `handle_connection`.
use peach_db.Base.{
  ℕ, zero, suc, ◌≡◌, ◌≢◌, refl, sym, ap, ◌∙◌, subst, Option, none, some, List, [], ◌∷◌, ◌++◌, ltb,
  length, take, drop, Bool-cases, inl, inr, ◌⊎◌,
}
use peach_db.Base.Words.{Bytes, from_be_bytes}
use peach_db.Error.{Outcome, ok, err, panic, diverged, PeachDbError}
use peach_db.Cursor.{Crates}
use peach_db.Db.WalCodec.{WalEntry, set, delete}
use peach_db.Db.System.{System}
use peach_db.Db.Wal.{append_entry}
use peach_db.Db.Database.{Iteration}
use peach_db.Server.Protocol.{Request, ok_response}
use peach_db.Server.Handler.Replies.{handle_request-append_entry, handle_request-append_entry_del}
use peach_db.Server.Connection.{
  Connection, Turn, again, leave, after_turn, answer, serve_request, serve_message, serve_turn,
  serve_turns, handle_connection,
}
use peach_db.Server.Connection.Termination.{handle_connection-ne-diverged}
use peach_db.Server.Run.{
  Task, serving, ended, Server, turned, store, writes_of, with_stream, next_request, next_write,
  IsWhole, turn, log, stores, Reach, start, next,
}

module _ (crates : Crates) (to_string : PeachDbError → Bytes) (it : Iteration) where
  past :
      (s : System) (p q : Outcome Request × Connection)
      → some p ≡ some q
      → serve_request crates to_string it p.0 s p.1 ≡ serve_request crates to_string it q.0 s q.1
  past s p q e =
      let same : p ≡ q = cc e in
      ap (λ (p : Outcome Request × Connection). serve_request crates to_string it p.0 s p.1) same

  pub serve_turn-request :
      (c : Connection) (s : System) (r : Outcome Request) (c' : Connection)
      → next_request crates c ≡ some (r, c')
      → serve_turn crates to_string it c s ≡ serve_request crates to_string it r s c'
  unfolding next_request serve_turn serve_message
  serve_turn-request c s r c' h = elim (Bool-cases (ltb (length c.input) 4)) [
    | inl short ↦ cc (rw short at h)
    | inr four ↦
        elim (Bool-cases (ltb (length (drop 4 c.input)) (from_be_bytes (take 4 c.input)))) [
          | inl cut ↦ cc (rw (four, cut) at h)
          | inr whole ↦ rw (four, whole) (past s _ (r, c') (rw (four, whole) at h))
        ]
  ]

  pub writes_of-some :
      (c : Connection) (w : WalEntry) (c' : Connection)
      → next_write crates c ≡ some (w, c')
      → (r : Outcome Request) × (next_request crates c ≡ some (r, c')) × (writes_of r ≡ some w)
  unfolding next_write
  writes_of-some c w c' h = go (next_request crates c) refl
    where
      pick :
          (r : Outcome Request) (d : Connection) (o : Option WalEntry)
          → next_request crates c ≡ some (r, d)
          → writes_of r ≡ o
          → with_stream d o ≡ some (w, c')
          → (r : Outcome Request) × (next_request crates c ≡ some (r, c')) × (writes_of r ≡ some w)
      pick r d none e f k = cc k
      pick r d (some v) e f k =
          let same : d ≡ c' = cc k in (r, e ∙ ap (λ c. some (r, c)) same, f ∙ cc k)

      go :
          (o : Option (Outcome Request × Connection))
          → next_request crates c ≡ o
          → (r : Outcome Request) × (next_request crates c ≡ some (r, c')) × (writes_of r ≡ some w)
      go none e = cc (rw e at h)
      go (some (r, d)) e = pick r d (writes_of r) e refl (rw e at h)

  serve_request-writes :
      (r : Outcome Request) (w : WalEntry) (s : System) (c : Connection)
      → writes_of r ≡ some w
      → (append_entry w s).0 ≡ ok tt
      → serve_request crates to_string it r s c
        ≡ answer crates to_string it (ok (ok_response none)) (store w (append_entry w s).1) c
  unfolding serve_request
  serve_request-writes (ok (Request.set key field)) w s c e h =
      let same : set key field ≡ w = cc e in
      subst
        (λ w.
          (append_entry w s).0 ≡ ok tt
          → serve_request crates to_string it (ok (Request.set key field)) s c
            ≡ answer crates to_string it (ok (ok_response none)) (store w (append_entry w s).1) c)
        same (λ h. rw (handle_request-append_entry to_string it key field s h)) h
  serve_request-writes (ok (Request.del key)) w s c e h =
      let same : delete key ≡ w = cc e in
      subst
        (λ w.
          (append_entry w s).0 ≡ ok tt
          → serve_request crates to_string it (ok (Request.del key)) s c
            ≡ answer crates to_string it (ok (ok_response none)) (store w (append_entry w s).1) c)
        same (λ h. rw (handle_request-append_entry_del to_string it key s h)) h
  serve_request-writes (ok Request.ping) w s c e h = cc e
  serve_request-writes (ok Request.keys) w s c e h = cc e
  serve_request-writes (ok (Request.get key)) w s c e h = cc e
  serve_request-writes (err x) w s c e h = cc e
  serve_request-writes panic w s c e h = cc e
  serve_request-writes diverged w s c e h = cc e

  -- The two steps of a change are those of its turn.
  serve_turn-writes :
      (c : Connection) (s : System) (w : WalEntry) (c' : Connection)
      → next_write crates c ≡ some (w, c')
      → (append_entry w s).0 ≡ ok tt
      → serve_turn crates to_string it c s
        ≡ answer crates to_string it (ok (ok_response none)) (store w (append_entry w s).1) c'
  serve_turn-writes c s w c' e h =
      let (r, read, wrote) = writes_of-some c w c' e in
      serve_turn-request c s r c' read ∙ serve_request-writes r w s c' wrote h

  -- Whether an entry was logged.
  was_logged : (r : Outcome (Unit {0})) → (r ≡ ok tt) ⊎ (r ≢ ok tt)
  was_logged (ok tt) = inl refl
  was_logged (err e) = inr (λ p. cc)
  was_logged panic = inr (λ p. cc)
  was_logged diverged = inr (λ p. cc)

  -- A task that is not interrupted: its turn, in one step or in two.
  serve_turn-Reach :
      (before behind : List Task) (c : Connection) (a b : Server) (ws vs : List WalEntry)
      → Reach crates to_string it a ws vs b
      → b.tasks ≡ before ++ serving c ∷ behind
      → (ws' : List WalEntry) × (vs' : List WalEntry) × Reach crates to_string it a ws' vs'
          (turned before (serve_turn crates to_string it c b.db) behind b)
  serve_turn-Reach before behind c a b ws vs reached here = go (next_write crates c) refl
    where
      whole :
          IsWhole (next_write crates c) b.db
          → (ws' : List WalEntry) × (vs' : List WalEntry) × Reach crates to_string it a ws' vs'
              (turned before (serve_turn crates to_string it c b.db) behind b)
      whole h = (_, _, next reached (turn before behind c here h))

      go :
          (o : Option (WalEntry × Connection))
          → next_write crates c ≡ o
          → (ws' : List WalEntry) × (vs' : List WalEntry) × Reach crates to_string it a ws' vs'
              (turned before (serve_turn crates to_string it c b.db) behind b)
      go none e = whole (subst (λ o. IsWhole o b.db) (sym e) tt)
      go (some (w, c')) e = elim (was_logged (append_entry w b.db).0) [
        | inl logged ↦
            subst
              (λ t.
                (ws' : List WalEntry) × (vs' : List WalEntry) × Reach crates to_string it a ws' vs'
                  (turned before t behind b))
              (sym (serve_turn-writes c b.db w c' e logged))
              (
                _,
                _,
                next (next reached (log before behind c w c' here e logged))
                    (stores before behind w c' refl),
              )
        | inr failed ↦ whole (subst (λ o. IsWhole o b.db) (sym e) failed)
      ]

  -- The task of a connection that was handled to its end.
  abbrev pub handled :
      List Task → Outcome (Unit {0}) × Connection × System → List Task → Server → Server
  handled before r behind b = record b { db = r.2; tasks = before ++ ended r.0 r.1 ∷ behind }

  abbrev Handles : Server → Server → Type 0
  Handles a b = (ws : List WalEntry) × (vs : List WalEntry) × Reach crates to_string it a ws vs b

  serve_turns-Reach :
      (fuel : ℕ) (before behind : List Task) (c : Connection) (a b : Server) (ws vs : List WalEntry)
      → Reach crates to_string it a ws vs b
      → b.tasks ≡ before ++ serving c ∷ behind
      → (serve_turns crates to_string it fuel c b.db).0 ≢ diverged
      → Handles a (handled before (serve_turns crates to_string it fuel c b.db) behind b)
  unfolding serve_turns
  serve_turns-Reach zero before behind c a b ws vs reached here ends = absurd (ends refl)
  serve_turns-Reach (suc fuel) before behind c a b ws vs reached here ends =
      let (ws', vs', later) = serve_turn-Reach before behind c a b ws vs reached here in
      follow (serve_turn crates to_string it c b.db) ends ws' vs' later
        (λ d. serve_turns-Reach fuel before behind d a)
    where
      loop : Connection → System → Outcome (Unit {0}) × Connection × System
      loop = serve_turns crates to_string it fuel

      follow :
          (t : Turn)
          → (after_turn t loop).0 ≢ diverged
          → (ws' vs' : List WalEntry)
          → Reach crates to_string it a ws' vs' (turned before t behind b)
          → ((d : Connection) (u : Server) (ws vs : List WalEntry)
              → Reach crates to_string it a ws vs u
              → u.tasks ≡ before ++ serving d ∷ behind
              → (loop d u.db).0 ≢ diverged
              → Handles a (handled before (loop d u.db) behind u))
          → Handles a (handled before (after_turn t loop) behind b)
      follow (again d s) ends ws' vs' later rest =
          rest d (turned before (again d s) behind b) ws' vs' later refl ends
      follow (leave r d s) ends ws' vs' later rest = (ws', vs', later)

  -- Whatever state the server is in, and whatever becomes of the system calls, the task of each
  -- connection can run to its end in steps of its own, and these do to the database and to the
  -- connection what `handle_connection` does when it runs alone; the other tasks stay as they are.
  pub handle_connection-Reach :
      (before behind : List Task) (c : Connection) (a : Server)
      → a.tasks ≡ before ++ serving c ∷ behind
      → (ws : List WalEntry) × (vs : List WalEntry) × Reach crates to_string it a ws vs
          (handled before (handle_connection crates to_string it c a.db) behind a)
  unfolding handle_connection
  handle_connection-Reach before behind c a here =
      serve_turns-Reach (suc (length c.input)) before behind c a a [] [] start here
        (handle_connection-ne-diverged crates to_string it c a.db)
