-- ===== src/Db/FileTask/Order.antt =====
-- The order in which the task of src/db/file.rs serves the commands that it is sent.
use peach_db.Base.{
  ℕ, suc, ◌≤◌, ◌≡◌, refl, sym, ap, ◌∙◌, List, [], ◌∷◌, ◌++◌, arith, length, length-append,
}
use peach_db.Error.{Outcome}
use peach_db.Db.System.{System, FileId}
use peach_db.Db.FileTask.{
  Message, Reply, Task, capacity, handle_cmd, serve_cmd, FileCmd, Turn, serve, Reach, start, send,
  turn,
}
use mathlib.Core.List.{append_assoc, append-nil}

module _ (f : FileId) where
  -- The specification: one command after the other.
  abbrev pub run_cmds : List Message → System → List (ℕ × Outcome Reply) × System
  run_cmds [] s = ([], s)
  run_cmds ((resp, cmd) ∷ ms) s =
      let (reply, t) = handle_cmd f cmd s in
      let (replies, u) = run_cmds ms t in ((resp, reply) ∷ replies, u)

  run_cmds-append :
      (ms : List Message) (resp : ℕ) (cmd : FileCmd) (s : System)
      → run_cmds (ms ++ (resp, cmd) ∷ []) s ≡ (
        (run_cmds ms s).0 ++ (resp, (handle_cmd f cmd (run_cmds ms s).1).0) ∷ [],
        (handle_cmd f cmd (run_cmds ms s).1).1,
      )
  run_cmds-append [] resp cmd s = refl
  run_cmds-append ((r, c) ∷ ms) resp cmd s =
      ap (λ p. ((r, (handle_cmd f c s).0) ∷ p.0, p.1))
        (run_cmds-append ms resp cmd (handle_cmd f c s).1)

  -- What was sent is what was served and what waits, in the order of sending.
  pub record Serves (s : System) (ms : List Message) (t : Task) : Type 0 where
    pub served : List Message
    pub order : ms ≡ served ++ t.queue
    pub ran : (t.replies, t.state) ≡ run_cmds served s
    pub room : length t.queue ≤ capacity

  -- Whatever the interleaving of sends and turns, the commands that the task has served are the first
  -- of those that were sent, their replies and the file are those of running them one after the other
  -- in the order of sending, the others wait in that order, and at most 32 wait.
  pub Reach-Serves : {s : System} {ms : List Message} {t : Task} → Reach f s ms t → Serves s ms t
  Reach-Serves start = record { served = []; order = refl; ran = refl; room = omega arith }
  Reach-Serves (send {t = t} m space r) =
      let before = Reach-Serves r in
      record {
        served = before.served;
        order = ap (λ l. l ++ m ∷ []) before.order ∙ append_assoc before.served t.queue (m ∷ []);
        ran = before.ran;
        room = omega (arith, length-append t.queue (m ∷ []), space);
      }
  Reach-Serves {s = s} (turn {t = t} (serve (resp, cmd) rest head) r) =
      let before = Reach-Serves r in
      record {
        served = before.served ++ (resp, cmd) ∷ [];
        order =
            before.order
            ∙ ap (λ l. before.served ++ l) head
            ∙ sym (append_assoc before.served ((resp, cmd) ∷ []) rest);
        ran =
            ap
              (λ (p : List (ℕ × Outcome Reply) × System).
                (p.0 ++ (resp, (handle_cmd f cmd p.1).0) ∷ [], (handle_cmd f cmd p.1).1))
              before.ran
            ∙ sym (run_cmds-append before.served resp cmd s);
        room = omega (arith, before.room, ap length head);
      }

  -- Turns of the loop alone, one after the other, and nothing sent between.
  pub data Turns (t : Task) : ℕ → Task → Type 0 where
    none_left : Turns t 0 t
    then_turn : {n : ℕ} {u v : Task} → Turns t n u → Turn f u v → Turns t (suc n) v

  Turns-Reach :
      {s : System} {ms : List Message} {t u : Task} {n : ℕ}
      → Turns t n u
      → Reach f s ms t
      → Reach f s ms u
  Turns-Reach none_left r = r
  Turns-Reach (then_turn ts last) r = turn last (Turns-Reach ts r)

  -- The first turn goes in front.
  turn_first : {t u v : Task} {n : ℕ} → Turn f t u → Turns u n v → Turns t (suc n) v
  turn_first first none_left = then_turn none_left first
  turn_first first (then_turn ts last) = then_turn (turn_first first ts) last

  drained :
      (queue : List Message) (t : Task)
      → t.queue ≡ queue
      → (u : Task) × Turns t (length queue) u × (u.queue ≡ [])
  drained [] t e = (t, none_left, e)
  drained (m ∷ rest) t e =
      let (u, ts, empty) = drained rest (serve_cmd f m rest t) refl in
      (u, turn_first (serve m rest e) ts, empty)

  -- From every task that is reached, as many turns of the loop as commands wait, with nothing sent
  -- between, lead to a task with an empty channel, in which every command that was sent has its reply:
  -- the replies and the file are those of running all of them one after the other in the order of
  -- sending.
  pub Reach-run_cmds :
      {s : System} {ms : List Message} {t : Task}
      → Reach f s ms t
      → (u : Task) × Turns t (length t.queue) u
        × (u.queue ≡ [])
        × ((u.replies, u.state) ≡ run_cmds ms s)
  Reach-run_cmds {s = s} {t = t} r =
      let (u, ts, empty) = drained t.queue t refl in
      let done = Reach-Serves (Turns-Reach ts r) in
      (
        u,
        ts,
        empty,
        done.ran
            ∙ ap (λ l. run_cmds l s)
                (sym (done.order ∙ ap (λ l. done.served ++ l) empty ∙ append-nil done.served)),
      )
