-- ===== src/Db/FileTask/Methods.antt =====
-- The methods of `FileHandler` of src/db/file.rs: a command is sent, and its reply awaited.
use peach_db.Base.{
  ℕ, ◌≡◌, Option, none, some, List, [], ◌∷◌, ◌++◌, arith, ◌==◌, if◌then◌else◌, Bool-cases, inl, inr,
}
use peach_db.Base.Words.{Bytes}
use peach_db.Error.{Outcome}
use peach_db.Db.System.{FileId}
use peach_db.Db.FileTask.{FileCmd, Reply, Task, handle_cmd, serve_cmd, send_cmd}

-- The methods of the handler, up to where they wait for the reply.
abbrev pub read_all : ℕ → Task → Task
read_all resp = send_cmd (resp, FileCmd.read_all)

abbrev pub write_at : ℕ → ℕ → Bytes → Task → Task
write_at resp pos bytes = send_cmd (resp, FileCmd.write_at pos bytes)

abbrev pub append : ℕ → Bytes → Task → Task
append resp bytes = send_cmd (resp, FileCmd.append bytes)

abbrev pub set_len : ℕ → ℕ → Task → Task
set_len resp len = send_cmd (resp, FileCmd.set_len len)

abbrev pub sync_all : ℕ → Task → Task
sync_all resp = send_cmd (resp, FileCmd.sync_all)

-- `resp_rx.await`: the reply of a channel, where it was sent.
unfoldable pub await : ℕ → List (ℕ × Outcome Reply) → Option (Outcome Reply)
await resp [] = none
await resp ((r, reply) ∷ replies) =
    let later = await resp replies in if r == resp then some reply else later

await-append :
    (resp : ℕ) (replies : List (ℕ × Outcome Reply)) (reply : Outcome Reply)
    → await resp replies ≡ none
    → await resp (replies ++ (resp, reply) ∷ []) ≡ some reply
unfolding await
await-append resp [] reply fresh = ground arith
await-append resp ((r, q) ∷ replies) reply fresh = elim (Bool-cases (r == resp)) [
  | inl e ↦ cc (rw e at fresh)
  | inr e ↦ rw e (await-append resp replies reply (rw e at fresh))
]

-- A client that is alone gets what the command does to the file.
pub await-serve_cmd :
    (f : FileId) (resp : ℕ) (cmd : FileCmd) (t : Task)
    → await resp t.replies ≡ none
    → await resp (serve_cmd f (resp, cmd) [] (send_cmd (resp, cmd) t)).replies
      ≡ some (handle_cmd f cmd t.state).0
await-serve_cmd f resp cmd t fresh = await-append resp t.replies (handle_cmd f cmd t.state).0 fresh
