-- ===== src/Db/FileTask.antt =====
-- The task of `FileHandler` of src/db/file.rs and its channel: commands of many clients, interleaved.
pub mod Methods
pub mod Order
use peach_db.Base.{
  ℕ, ◌<◌, ◌≡◌, Option, none, some, List, [], ◌∷◌, ◌++◌, length, ◌==◌, if◌then◌else◌,
}
use peach_db.Base.Words.{Bytes}
use peach_db.Error.{Outcome}
use peach_db.Db.System.{System, FileId, Exec, pure, ◌>>=◌}
use peach_db.Db.FileHandler

pub data FileCmd : Type 0 where
  read_all : FileCmd
  write_at : ℕ → Bytes → FileCmd
  append : Bytes → FileCmd
  set_len : ℕ → FileCmd
  sync_all : FileCmd

-- What a command is answered by.
pub data Reply : Type 0 where
  content : Bytes → Reply
  position : ℕ → Reply
  nothing : Reply

-- A command with the channel of its reply: the channels are told apart by numbers.
abbrev pub Message : Type 0
Message = ℕ × FileCmd

-- The commands in the channel, the replies so far, and the file.
pub record Task : Type 0 where
  pub queue : List Message
  pub replies : List (ℕ × Outcome Reply)
  pub state : System

abbrev pub spawn : System → Task
spawn s = record { queue = []; replies = []; state = s }

abbrev pub capacity : ℕ
capacity = 32

module _ (f : FileId) where
  -- The match on a command.
  unfoldable pub handle_cmd : FileCmd → Exec Reply
  handle_cmd FileCmd.read_all = do bytes ← FileHandler.read_all f; pure (content bytes)
  handle_cmd (FileCmd.write_at pos bytes) = do done ← FileHandler.write_at f pos bytes; pure nothing
  handle_cmd (FileCmd.append bytes) = do pos ← FileHandler.append f bytes; pure (position pos)
  handle_cmd (FileCmd.set_len len) = do done ← FileHandler.set_len f len; pure nothing
  handle_cmd FileCmd.sync_all = do done ← FileHandler.sync_all f; pure nothing

  -- A turn of the loop on a command that was taken from the channel, with the ones behind it.
  abbrev pub serve_cmd : Message → List Message → Task → Task
  serve_cmd (resp, cmd) rest t = record {
    queue = rest;
    replies = t.replies ++ (resp, (handle_cmd cmd t.state).0) ∷ [];
    state = (handle_cmd cmd t.state).1;
  }

-- `self.tx.send`, with a reply channel.
abbrev pub send_cmd : Message → Task → Task
send_cmd m t = record t { queue = t.queue ++ m ∷ [] }

-- A turn of the loop, on the first command of the channel.
pub data Turn (f : FileId) (t : Task) : Task → Type 0 where
  serve : (m : Message) (rest : List Message) → t.queue ≡ m ∷ rest → Turn f t (serve_cmd f m rest t)

-- The tasks that are reached from a file by sending the messages, with the turns of the loop anywhere
-- between. A send waits for room in the channel.
pub data Reach (f : FileId) (s : System) : List Message → Task → Type 0 where
  start : Reach f s [] (spawn s)
  send :
      {ms : List Message} {t : Task} (m : Message)
      → length t.queue < capacity
      → Reach f s ms t
      → Reach f s (ms ++ m ∷ []) (send_cmd m t)
  turn : {ms : List Message} {t u : Task} → Turn f t u → Reach f s ms t → Reach f s ms u
