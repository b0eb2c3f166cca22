-- ===== src/Cli/Session.antt =====
-- `main` of examples/peachdb-cli.rs against `Server::handle_connection` of src/server/server.rs.
use peach_db.Base.{
  ◌<◌, ◌^◌, ◌≡◌, sym, ap, ◌∙◌, none, List, [], ◌∷◌, ◌++◌, arith, length, length-append, le→ltb,
  take_here, drop_here, take_all, inr,
}
use peach_db.Base.Words.{Bytes, as_u32, to_be_bytes, length-to_be_bytes, from_be_bytes-to_be_bytes}
use peach_db.Cursor.{Crates}
use peach_db.Error.{ok, PeachDbError, IoErrorKind, unexpected_eof}
use peach_db.Db.System.{System}
use peach_db.Db.Database.{Iteration}
use peach_db.Server.Protocol.{
  Request, Response, encode_request, encode_response, new_encoder, frame,
}
use peach_db.Server.Protocol.Responses.{IsResponse, decode_response-encode_response}
use peach_db.Server.Handler.{handle_request}
use peach_db.Server.Connection.{response_bytes, handle_connection}
use peach_db.Server.Connection.Pipeline.{
  IsSent, connection, reply, handle_connection-request_frames,
}
use peach_db.Cli.Arguments
use peach_db.Cli.Arguments.{
  parse_addr, require_arg, build_get, build_set, build_request, parse_value,
}
use peach_db.Cli.Display.{print_response}
use peach_db.Cli.{
  Stream, World, read_response, send_request, finish, after_sending, exchange, run_request,
  run_args, main,
}
use mathlib.Core.List.{append-nil}
use native.Mathlib.Nat.{mod-eq_of_lt}

-- A response that fits its frame.
abbrev pub IsAnswered : Response → Type 0
IsAnswered res = IsResponse res × (length (encode_response res new_encoder).buffer < 2 ^ 32)

module _ (display_io : IoErrorKind → Bytes) (crates : Crates)
    (to_string : PeachDbError → Bytes) where
  -- The client reads what the server wrote.
  read_response-response_bytes :
      (res : Response) (kind : IoErrorKind)
      → IsAnswered res
      → read_response display_io crates to_string (response_bytes res, kind) ≡ Arguments.ok res
  unfolding read_response frame
  read_response-response_bytes res kind (valid, short) = rw (
    le→ltb (length (size ++ buffer)) 4 (omega (arith, four, length-append size buffer)),
    take_here 4 size buffer four,
    drop_here 4 size buffer four,
    from_be_bytes-to_be_bytes 4 (as_u32 (length buffer)) (omega arith),
    mod-eq_of_lt short,
    le→ltb (length buffer) (length buffer) (omega arith),
    take_all (length buffer) buffer (omega arith),
    decode_response-encode_response crates new_encoder res valid,
  )
    where
      buffer : Bytes
      buffer = (encode_response res new_encoder).buffer

      size : Bytes
      size = to_be_bytes 4 (as_u32 (length buffer))

      four : length size ≡ 4
      four = length-to_be_bytes 4 (as_u32 (length buffer))

module _ (crates : Crates) (to_string : PeachDbError → Bytes) (it : Iteration) where
  -- A server on the state `s`, as the stream that a client is connected by: it answers with what
  -- `handle_connection` writes, and no write fails.
  abbrev pub server : System → Stream
  server s = record {
    breaks = none;
    answer = λ sent.
        ((handle_connection crates to_string it (connection sent []) s).1.output, unexpected_eof);
  }

  pub state-frame :
      (req : Request) (s : System)
      → IsSent req
      → (handle_connection crates to_string it
          (connection (frame (encode_request req new_encoder)) [])
          s).2
        ≡ (handle_request to_string it req s).1
  state-frame req s sent =
      ap (λ t. (handle_connection crates to_string it (connection t []) s).2)
        (sym (append-nil (frame (encode_request req new_encoder))))
      ∙ ap (λ r. r.2) (handle_connection-request_frames crates to_string it (req ∷ []) s (sent, tt))

  answer-frame :
      (req : Request) (res : Response) (s : System)
      → IsSent req
      → (handle_request to_string it req s).0 ≡ ok res
      → (handle_connection crates to_string it
          (connection (frame (encode_request req new_encoder)) [])
          s).1.output
        ≡ response_bytes res
  answer-frame req res s sent answered =
      ap (λ t. (handle_connection crates to_string it (connection t []) s).1.output)
        (sym (append-nil (frame (encode_request req new_encoder))))
      ∙ ap (λ r. r.1.output)
          (handle_connection-request_frames crates to_string it (req ∷ []) s (sent, tt))
      ∙ append-nil (reply (handle_request to_string it req s).0)
      ∙ ap reply answered

module _ (world : World) (it : Iteration) where
  abbrev pub connected : System → World
  connected s = record world { connect = λ addr. inr (server world.crates world.to_string it s) }

  run_request-server :
      (addr : Bytes) (req : Request) (res : Response) (s : System)
      → IsSent req
      → (handle_request world.to_string it req s).0 ≡ ok res
      → IsAnswered res
      → run_request (connected s) addr (Arguments.ok req) ≡ print_response world.display_f64 res
  unfolding run_request exchange send_request after_sending finish
  run_request-server addr req res s sent answered valid = rw (
    answer-frame world.crates world.to_string it req res s sent answered,
    read_response-response_bytes world.display_io world.crates world.to_string res unexpected_eof
        valid,
  )

  -- Where the arguments, behind an address or not, spell a request whose key is shorter than 2 ^ 16
  -- bytes, whose value is well formed and shorter than 2 ^ 32 bytes and which fits its frame, and the
  -- server's handler answers it with a well-formed response that fits its frame, the client prints that
  -- response.
  pub main-handle_request :
      (args rest : List Bytes) (addr cmd : Bytes) (req : Request) (res : Response) (s : System)
      → parse_addr args ≡ (addr, cmd ∷ rest)
      → build_request world.parse_f64 (cmd ∷ rest) ≡ Arguments.ok req
      → IsSent req
      → (handle_request world.to_string it req s).0 ≡ ok res
      → IsAnswered res
      → main (connected s) args ≡ print_response world.display_f64 res
  unfolding main run_args
  main-handle_request args rest addr cmd req res s parsed built sent answered valid =
      rw (parsed, built) (run_request-server addr req res s sent answered valid)
