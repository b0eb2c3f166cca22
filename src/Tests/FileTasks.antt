-- ===== src/Tests/FileTasks.antt =====
-- Two clients of one file, interleaved.
use peach_db.Base.{ℕ, ◌≡◌, refl, List, [], ◌∷◌, arith}
use peach_db.Error.{Outcome, ok}
use peach_db.Db.System.{System, db_id}
use peach_db.Db.FileHandler.{append, read_all}
use peach_db.Db.FileTask.{
  Message, FileCmd, Reply, Task, position, content, spawn, send_cmd, serve_cmd, handle_cmd, Reach,
  start, send, serve, turn,
}
use peach_db.Db.FileTask.Order.{Serves, Turns, Reach-Serves, Reach-run_cmds}
use peach_db.Tests.Sample.{empty_files}

abbrev messages : List Message
messages =
    (0, FileCmd.append (7 ∷ 7 ∷ [])) ∷ (1, FileCmd.append (8 ∷ [])) ∷ (0, FileCmd.read_all) ∷ []

-- Both clients append; the first is served, and reads.
abbrev two_waiting : Task
two_waiting =
    send_cmd (1, FileCmd.append (8 ∷ []))
      (send_cmd (0, FileCmd.append (7 ∷ 7 ∷ [])) (spawn empty_files))

abbrev task : Task
task =
    send_cmd (0, FileCmd.read_all)
      (serve_cmd db_id (0, FileCmd.append (7 ∷ 7 ∷ [])) ((1, FileCmd.append (8 ∷ [])) ∷ [])
        two_waiting)

task-Reach : Reach db_id empty_files messages task
task-Reach =
    send (0, FileCmd.read_all) (omega arith)
      (turn (serve (0, FileCmd.append (7 ∷ 7 ∷ [])) ((1, FileCmd.append (8 ∷ [])) ∷ []) refl) (
        send (1, FileCmd.append (8 ∷ [])) (omega arith)
          (send (0, FileCmd.append (7 ∷ 7 ∷ [])) (omega arith) start)))

Reach-Serves_example : Serves db_id empty_files messages task
Reach-Serves_example = Reach-Serves db_id task-Reach

abbrev expected : List (ℕ × Outcome Reply) × System
expected = (
  (0, ok (position 0)) ∷ (1, ok (position 2)) ∷ (0, ok (content (7 ∷ 7 ∷ 8 ∷ []))) ∷ [],
  record empty_files { db_file = 7 ∷ 7 ∷ 8 ∷ [] },
)

Reach-run_cmds_example :
    (u : Task) × Turns db_id task 2 u × (u.queue ≡ []) × ((u.replies, u.state) ≡ expected)
unfolding handle_cmd append read_all
Reach-run_cmds_example = Reach-run_cmds db_id task-Reach
