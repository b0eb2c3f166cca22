-- ===== src/Server/Run.antt =====
-- `Server::new` and `Server::run` of src/server/server.rs: the tasks that serve the connections share
-- one database, and tokio interleaves them.
pub mod Sequential
pub mod Turns
pub mod Waiting
pub mod Logs
pub mod LogSteps
pub mod Apart
pub mod Crash
pub mod Ordered
use peach_db.Base.{
  ◌≡◌, ◌≢◌, ◌⊎◌, inl, inr, Option, none, some, List, [], ◌∷◌, ◌++◌, ltb, length, take, drop, All,
  if◌then◌else◌,
}
use peach_db.Base.Words.{Bytes, IsByte, from_be_bytes}
use peach_db.Error.{Outcome, ok, PeachDbError, io, IoErrorKind}
use peach_db.Cursor.{Crates}
use peach_db.Db.WalCodec.{WalEntry, set, delete}
use peach_db.Db.System.{System}
use peach_db.Db.Wal.{append_entry}
use peach_db.Db.Database.{Iteration, put_field, drop_field}
use peach_db.Server.Protocol.{Request, ok_response, decode_request}
use peach_db.Server.Connection.{Connection, Turn, again, leave, answer, serve_turn}

-- A task of `tokio::spawn`, where it can be interrupted so that another sees a change of the database:
-- before a turn of its loop, or inside `set` and `delete`, which have logged the entry and wait for
-- the lock of the maps. The result of a task that has ended is dropped.
pub data Task : Type 0 where
  serving : Connection → Task
  storing : WalEntry → Connection → Task
  ended : Outcome (Unit {0}) → Connection → Task

-- Where `run` stands; it returns only with an error.
pub data Listener : Type 0 where
  binding accepting : Listener
  returned : PeachDbError → Listener

pub record Server : Type 0 where
  pub db : System
  pub addr : Bytes
  pub listener : Listener
  pub tasks : List Task

abbrev pub new : Bytes → System → Server
new addr db = record { db = db; addr = addr; listener = binding; tasks = [] }

-- The results of `TcpListener::bind` and `listener.accept`.
unfoldable pub bound : Option IoErrorKind → Server → Server
bound none a = record a { listener = accepting }
bound (some kind) a = record a { listener = returned (io kind) }

unfoldable pub accepted : Connection ⊎ IoErrorKind → Server → Server
accepted (inl c) a = record a { tasks = a.tasks ++ serving c ∷ [] }
accepted (inr kind) a = record a { listener = returned (io kind) }

-- The task behind a turn of its loop.
abbrev pub task_after : Turn → Task
task_after (again c s) = serving c
task_after (leave r c s) = ended r c

abbrev pub db_after : Turn → System
db_after (again c s) = s
db_after (leave r c s) = s

-- A task that stands between others has had its turn.
abbrev pub turned : List Task → Turn → List Task → Server → Server
turned before t behind a = record a { db = db_after t; tasks = before ++ task_after t ∷ behind }

-- The second half of `set` and of `delete`.
abbrev pub store : WalEntry → System → System
store (set key field) s = put_field key field s
store (delete key) s = drop_field key s

abbrev pub writes_of : Outcome Request → Option WalEntry
writes_of (ok (Request.set key field)) = some (set key field)
writes_of (ok (Request.del key)) = some (delete key)
writes_of r = none

abbrev pub with_stream : Connection → Option WalEntry → Option (WalEntry × Connection)
with_stream c none = none
with_stream c (some w) = some (w, c)

abbrev pub change_of : Option (Outcome Request × Connection) → Option (WalEntry × Connection)
change_of none = none
change_of (some (r, c)) = with_stream c (writes_of r)

module _ (crates : Crates) where
  -- What the next turn decodes, and the stream behind it, where a whole message is there.
  unfoldable pub next_request : Connection → Option (Outcome Request × Connection)
  next_request c =
      if ltb (length c.input) 4
      then none
      else if ltb (length (drop 4 c.input)) (from_be_bytes (take 4 c.input))
      then none
      else some (
        decode_request crates (take (from_be_bytes (take 4 c.input)) (drop 4 c.input)),
        record c { input = drop (from_be_bytes (take 4 c.input)) (drop 4 c.input) },
      )

  -- The change that the next turn asks for.
  unfoldable pub next_write : Connection → Option (WalEntry × Connection)
  next_write c = change_of (next_request c)

-- A client sends bytes.
abbrev pub IsStream : Connection ⊎ IoErrorKind → Type 0
IsStream (inl c) = All IsByte c.input
IsStream (inr kind) = Unit

-- A turn that logs nothing.
abbrev pub IsWhole : Option (WalEntry × Connection) → System → Type 0
IsWhole none s = Unit
IsWhole (some (w, c)) s = (append_entry w s).0 ≢ ok tt

module _ (crates : Crates) (to_string : PeachDbError → Bytes) (it : Iteration) where
  -- One step of the server, with the entry that it logs and the one that it stores. The locks of
  -- the log and of the maps are taken one after the other, so that a `set` or a `delete` whose entry
  -- was logged is two steps; all else that a turn does to the database happens under one lock.
  pub data Step (a : Server) : List WalEntry → List WalEntry → Server → Type 0 where
    bind : (r : Option IoErrorKind) → a.listener ≡ binding → Step a [] [] (bound r a)
    accept :
        (r : Connection ⊎ IoErrorKind)
        → a.listener ≡ accepting
        → IsStream r
        → Step a [] [] (accepted r a)
    turn :
        (before behind : List Task) (c : Connection)
        → a.tasks ≡ before ++ serving c ∷ behind
        → IsWhole (next_write crates c) a.db
        → Step a [] [] (turned before (serve_turn crates to_string it c a.db) behind a)
    log :
        (before behind : List Task) (c : Connection) (w : WalEntry) (c' : Connection)
        → a.tasks ≡ before ++ serving c ∷ behind
        → next_write crates c ≡ some (w, c')
        → (append_entry w a.db).0 ≡ ok tt
        → Step a
            (w ∷ [])
            []
            (record a { db = (append_entry w a.db).1; tasks = before ++ storing w c' ∷ behind })
    stores :
        (before behind : List Task) (w : WalEntry) (c : Connection)
        → a.tasks ≡ before ++ storing w c ∷ behind
        → Step a [] (w ∷ []) (
            turned before
              (answer crates to_string it (ok (ok_response none)) (store w a.db) c)
              behind
              a)

  -- The states that are reached, with the entries in the order in which they were logged, and in
  -- which they were stored.
  pub data Reach (a : Server) : List WalEntry → List WalEntry → Server → Type 0 where
    start : Reach a [] [] a
    next :
        {ws vs ws' vs' : List WalEntry} {b c : Server}
        → Reach a ws vs b
        → Step b ws' vs' c
        → Reach a (ws ++ ws') (vs ++ vs') c
