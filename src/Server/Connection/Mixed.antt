-- ===== src/Server/Connection/Mixed.antt =====
-- `Server::handle_connection` of src/server/server.rs with a client that sends requests and messages
-- that are none.
use peach_db.Base.{
  ℕ, zero, suc, ◌<◌, ◌^◌, ◌≡◌, ◌≢◌, ◌⊎◌, refl, ◌∙◌, List, [], ◌∷◌, ◌++◌, arith, All, length,
  length-append, ◌==◌, false,
}
use peach_db.Base.Words.{Bytes, as_u32, to_be_bytes, length-to_be_bytes}
use peach_db.Error.{
  ok, err, io, unexpected_eof, unknown_command, invalid_request_format, PeachDbError,
}
use peach_db.Cursor
use peach_db.Cursor.{Crates, read_exact, advance}
use peach_db.Cursor.Laws.{read_u8_here}
use peach_db.Db.System.{System}
use peach_db.Db.Database.{Iteration}
use peach_db.Server.Protocol.{
  Request, invalid_request, decode_request, read_command, command_from, frame,
}
use peach_db.Server.Handler.{handle_request}
use peach_db.Server.Connection.{
  again, response_bytes, end_of_stream, serve_turn, serve_turns, handle_connection,
}
use peach_db.Server.Connection.Pipeline.{
  connection, sized, message, reply, IsSent, serve_turn-frame,
}
use peach_db.Server.Connection.Malformed.{serve_turn-invalid_request}
use mathlib.Core.List.{append_assoc, append-nil}

-- What a client sends in a frame: a request, nothing, a version and whatever, the version 1 alone, or a
-- byte behind it that names no command.
pub data Message : Type 0 where
  request : Request → Message
  empty : Message
  other_version : ℕ → Bytes → Message
  no_command : Message
  other_command : ℕ → Bytes → Message

abbrev pub message_bytes : Message → Bytes
message_bytes (request r) = message r
message_bytes empty = []
message_bytes (other_version v rest) = v ∷ rest
message_bytes no_command = 0x01 ∷ []
message_bytes (other_command c rest) = 0x01 ∷ c ∷ rest

abbrev pub IsMessage : Message → Type 0
IsMessage (request r) = IsSent r
IsMessage empty = Unit
IsMessage (other_version v rest) = (v ≢ 1) × (length (v ∷ rest) < 2 ^ 32)
IsMessage no_command = Unit
IsMessage (other_command c rest) = ((c ≡ 0) ⊎ (5 < c)) × (length (0x01 ∷ c ∷ rest) < 2 ^ 32)

abbrev pub message_frames : List Message → Bytes
message_frames [] = []
message_frames (m ∷ ms) = sized (message_bytes m) ++ message_frames ms

module _ (to_string : PeachDbError → Bytes) (it : Iteration) where
  -- The specification of one message: its answer, and the state behind it.
  abbrev pub responds : Message → System → Bytes × System
  responds (request r) s = let (res, t) = handle_request to_string it r s in (reply res, t)
  responds m s = (response_bytes invalid_request, s)

  abbrev pub responses : List Message → System → Bytes × System
  responses [] s = ([], s)
  responses (m ∷ ms) s =
      let (bytes, t) = responds m s in let (more, u) = responses ms t in (bytes ++ more, u)

-- A read at the end.
read_u8_end :
    (crates : Crates) (c : Cursor.Cursor)
    → Cursor.remaining c ≡ []
    → crates.read_uint_le 1 c ≡ err (io unexpected_eof)
unfolding read_exact
read_u8_end crates c here = rw (crates.read_uint_le_lem 1 c, here)

module _ (crates : Crates) where
  refuses_empty : decode_request crates [] ≡ err (io unexpected_eof)
  unfolding decode_request
  refuses_empty = rw (read_u8_end crates (Cursor.new []) refl)

  refuses_version :
      (v : ℕ) (rest : Bytes)
      → v ≢ 1
      → decode_request crates (v ∷ rest) ≡ err (invalid_request_format "invalid version")
  unfolding decode_request
  refuses_version v rest other =
      let no : (v == 1) ≡ false = ground (arith, other) in
      rw (read_u8_here crates (Cursor.new (v ∷ rest)) v rest refl, no)

  refuses_no_command : decode_request crates (0x01 ∷ []) ≡ err (io unexpected_eof)
  unfolding decode_request read_command
  refuses_no_command = rw (
    read_u8_here crates (Cursor.new (0x01 ∷ [])) 1 [] refl,
    read_u8_end crates (advance 1 (Cursor.new (0x01 ∷ []))) refl,
  )

  command_from-other : (c : ℕ) → (c ≡ 0) ⊎ (5 < c) → command_from c ≡ err (unknown_command c)
  unfolding command_from
  command_from-other c h = ground (arith, h)

  refuses_command :
      (c : ℕ) (rest : Bytes)
      → (c ≡ 0) ⊎ (5 < c)
      → decode_request crates (0x01 ∷ c ∷ rest) ≡ err (unknown_command c)
  unfolding decode_request read_command
  refuses_command c rest h = rw (
    read_u8_here crates (Cursor.new (0x01 ∷ c ∷ rest)) 1 (c ∷ rest) refl,
    read_u8_here crates (advance 1 (Cursor.new (0x01 ∷ c ∷ rest))) c rest refl,
    command_from-other c h,
  )

module _ (crates : Crates) (to_string : PeachDbError → Bytes) (it : Iteration) where
  serve_turn-responds :
      (m : Message) (s : System) (rest output : Bytes)
      → IsMessage m
      → serve_turn crates to_string it (connection (sized (message_bytes m) ++ rest) output) s
        ≡ again
            (connection rest (output ++ (responds to_string it m s).0))
            (responds to_string it m s).1
  serve_turn-responds (request r) s rest output sent =
      unfold frame in serve_turn-frame crates to_string it r s rest output sent
  serve_turn-responds empty s rest output h =
      serve_turn-invalid_request crates to_string it [] (io unexpected_eof) s rest output
        (omega arith) (refuses_empty crates)
  serve_turn-responds (other_version v bytes) s rest output (other, short) =
      serve_turn-invalid_request crates to_string it (v ∷ bytes)
        (invalid_request_format "invalid version") s rest output short
        (refuses_version crates v bytes other)
  serve_turn-responds no_command s rest output h =
      serve_turn-invalid_request crates to_string it (0x01 ∷ []) (io unexpected_eof) s rest output
        (omega arith) (refuses_no_command crates)
  serve_turn-responds (other_command c bytes) s rest output (other, short) =
      serve_turn-invalid_request crates to_string it (0x01 ∷ c ∷ bytes) (unknown_command c) s rest
        output short (refuses_command crates c bytes other)

  serve_turns-message_frames :
      (ms : List Message) (fuel : ℕ) (s : System) (output : Bytes)
      → All IsMessage ms
      → length (message_frames ms) < fuel
      → serve_turns crates to_string it fuel (connection (message_frames ms) output) s ≡ (
        ok tt,
        connection [] (output ++ (responses to_string it ms s).0),
        (responses to_string it ms s).1,
      )
  unfolding serve_turns
  serve_turns-message_frames ms zero s output h enough = absurd (omega arith)
  serve_turns-message_frames [] (suc fuel) s output h enough =
      unfold serve_turn end_of_stream in rw append-nil
  serve_turns-message_frames (m ∷ ms) (suc fuel) s output (h, hs) enough =
      rw (serve_turn-responds m s (message_frames ms) output h) (
        serve_turns-message_frames ms fuel (responds to_string it m s).1
          (output ++ (responds to_string it m s).0) hs
          (omega (
            arith,
            length-append (sized (message_bytes m)) (message_frames ms),
            length-append (to_be_bytes 4 (as_u32 (length (message_bytes m)))) (message_bytes m),
            length-to_be_bytes 4 (as_u32 (length (message_bytes m))),
          ))
        ∙ rw append_assoc)

  -- Frames of well-formed requests that fit them, mixed in any way with frames that are empty, that
  -- start with another version than 1, or whose version 1 is followed by nothing or by a byte that names
  -- no command, on a stream whose writes succeed: each is answered, in the order in which they were
  -- sent, the requests by the state that the requests before them left and the others by
  -- `InvalidRequest` and without a change of the state, and the connection ends without an error.
  pub handle_connection-message_frames :
      (ms : List Message) (s : System)
      → All IsMessage ms
      → handle_connection crates to_string it (connection (message_frames ms) []) s
        ≡ (ok tt, connection [] (responses to_string it ms s).0, (responses to_string it ms s).1)
  unfolding handle_connection
  handle_connection-message_frames ms s h =
      serve_turns-message_frames ms (suc (length (message_frames ms))) s [] h (omega arith)
