-- ===== src/Server/Connection.antt =====
-- `Server::handle_connection` and `send_response` of src/server/server.rs.
pub mod Pipeline
pub mod Malformed
pub mod Mixed
pub mod Termination
use peach_db.Base.{
  ℕ, zero, suc, Bool, true, false, List, [], ◌∷◌, ◌++◌, ltb, length, take, drop, if◌then◌else◌,
}
use peach_db.Base.Words.{Bytes, from_be_bytes}
use peach_db.Error.{
  Outcome, ok, err, panic, diverged, io, IoErrorKind, unexpected_eof, connection_reset,
  PeachDbError,
}
use peach_db.Cursor.{Crates}
use peach_db.Db.System.{System}
use peach_db.Db.Database.{Iteration}
use peach_db.Server.Protocol.{
  Request, Response, server_error, invalid_request, encode_response, new_encoder, frame,
  decode_request,
}
use peach_db.Server.Handler.{handle_request}

-- The stream: what the client sends before it stops, the error that a read behind that meets, what
-- was sent back, and whether each write to come fails; behind the end of `breaks` none does.
pub record Connection : Type 0 where
  pub input : Bytes
  pub at_end : IoErrorKind
  pub output : Bytes
  pub breaks : List Bool

-- `stream.write_all`, with `is_ok()` of its result. What a write that fails has sent is left out.
unfoldable pub write_all : Bytes → Connection → Bool × Connection
write_all bytes c = go c.breaks
  where
    go : List Bool → Bool × Connection
    go [] = (true, record c { output = c.output ++ bytes })
    go (false ∷ breaks) = (true, record c { output = c.output ++ bytes; breaks = breaks })
    go (true ∷ breaks) = (false, record c { breaks = breaks })

abbrev pub response_bytes : Response → Bytes
response_bytes res = frame (encode_response res new_encoder)

unfoldable pub send_response : Response → Connection → Bool × Connection
send_response res c = write_all (response_bytes res) c

-- How one turn of the loop ends: in the next turn, or in a `break`, a `return` or a panic.
pub data Turn : Type 0 where
  again : Connection → System → Turn
  leave : Outcome (Unit {0}) → Connection → System → Turn

abbrev pub after_turn :
    Turn
    → (Connection → System → Outcome (Unit {0}) × Connection × System)
    → Outcome (Unit {0}) × Connection × System
after_turn (again c s) next = next c s
after_turn (leave r c s) next = (r, c, s)

-- The match on the error of the first read.
unfoldable pub end_of_stream : IoErrorKind → Outcome (Unit {0})
end_of_stream unexpected_eof = ok tt
end_of_stream connection_reset = ok tt
end_of_stream kind = err (io kind)

abbrev pub failed_to_read : Bytes
failed_to_read =
    102 ∷ 97 ∷ 105 ∷ 108 ∷ 101 ∷ 100 ∷ 32 ∷ 116 ∷ 111 ∷ 32 ∷ 114 ∷ 101 ∷ 97 ∷ 100 ∷ 32 ∷ 109 ∷ 101
    ∷ 115 ∷ 115 ∷ 97 ∷ 103 ∷ 101 ∷ []

-- `continue` or the end of the turn where the answer was sent, `break` where it was not.
abbrev pub after_sending : Bool × Connection → System → Turn
after_sending (true, c) s = again c s
after_sending (false, c) s = leave (ok tt) c s

module _ (crates : Crates) (to_string : PeachDbError → Bytes) (it : Iteration) where
  unfoldable pub answer : Outcome Response → System → Connection → Turn
  answer (ok res) s c = after_sending (write_all (response_bytes res) c) s
  answer (err e) s c = leave (err e) c s
  answer panic s c = leave panic c s
  answer diverged s c = leave diverged c s

  -- The match on `decode_request`.
  unfoldable pub serve_request : Outcome Request → System → Connection → Turn
  serve_request (ok req) s c = let (r, t) = handle_request to_string it req s in answer r t c
  serve_request (err e) s c = after_sending (send_response invalid_request c) s
  serve_request panic s c = leave panic c s
  serve_request diverged s c = leave diverged c s

  -- The message of a length that was read.
  unfoldable pub serve_message : ℕ → System → Connection → Turn
  serve_message msg_len s c =
      if ltb (length c.input) msg_len
      then leave (ok tt) (send_response (server_error failed_to_read) (record c { input = [] })).1 s
      else serve_request (decode_request crates (take msg_len c.input)) s
          (record c { input = drop msg_len c.input })

  unfoldable pub serve_turn : Connection → System → Turn
  serve_turn c s =
      if ltb (length c.input) 4
      then leave (end_of_stream c.at_end) (record c { input = [] }) s
      else serve_message (from_be_bytes (take 4 c.input)) s (record c { input = drop 4 c.input })

  -- The loop, on fuel: a turn that is not the last takes four bytes at least.
  unfoldable pub serve_turns : ℕ → Connection → System → Outcome (Unit {0}) × Connection × System
  serve_turns zero c s = (diverged, c, s)
  serve_turns (suc fuel) c s = after_turn (serve_turn c s) (serve_turns fuel)

  unfoldable pub handle_connection : Connection → System → Outcome (Unit {0}) × Connection × System
  handle_connection c s = serve_turns (suc (length c.input)) c s
