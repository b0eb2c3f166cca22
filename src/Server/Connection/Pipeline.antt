-- ===== src/Server/Connection/Pipeline.antt =====
-- `Server::handle_connection` of src/server/server.rs with a client that does not wait for answers.
use peach_db.Base.{
  ℕ, zero, suc, ◌<◌, ◌^◌, ◌≡◌, refl, ◌∙◌, List, [], ◌∷◌, ◌++◌, arith, All, le→ltb, length,
  length-append, take_here, drop_here,
}
use peach_db.Base.Words.{Bytes, as_u32, to_be_bytes, length-to_be_bytes, from_be_bytes-to_be_bytes}
use peach_db.Error.{Outcome, ok, err, panic, diverged, unexpected_eof, PeachDbError}
use peach_db.Cursor.{Crates}
use peach_db.Db.System.{System}
use peach_db.Db.Database.{Iteration}
use peach_db.Server.Protocol.{Request, Response, encode_request, new_encoder, frame, decode_request}
use peach_db.Server.Protocol.RoundTrip.{IsRequest, decode_request-encode_request}
use peach_db.Server.Handler.{handle_request}
use peach_db.Server.Handler.Replies.{handle_request-answers}
use peach_db.Server.Connection.{
  Connection, again, write_all, response_bytes, end_of_stream, answer, serve_request, serve_message,
  serve_turn, serve_turns, handle_connection,
}
use mathlib.Core.List.{append_assoc, append-nil}
use native.Mathlib.Nat.{mod-eq_of_lt}

-- A message behind its length.
abbrev pub sized : Bytes → Bytes
sized m = to_be_bytes 4 (as_u32 (length m)) ++ m

abbrev pub message : Request → Bytes
message r = (encode_request r new_encoder).buffer

-- A request that fits its frame.
abbrev pub IsSent : Request → Type 0
IsSent r = IsRequest r × (length (message r) < 2 ^ 32)

abbrev pub request_frames : List Request → Bytes
request_frames [] = []
request_frames (r ∷ rs) = frame (encode_request r new_encoder) ++ request_frames rs

-- A stream whose writes all succeed and whose client closes it behind the input.
abbrev pub connection : Bytes → Bytes → Connection
connection input output = record {
  input = input;
  at_end = unexpected_eof;
  output = output;
  breaks = [];
}

abbrev pub reply : Outcome Response → Bytes
reply (ok res) = response_bytes res
reply (err e) = []
reply panic = []
reply diverged = []

module _ (to_string : PeachDbError → Bytes) (it : Iteration) where
  -- The specification: the requests are handled in order, and the answers stand in that order.
  abbrev pub served : List Request → System → Bytes × System
  served [] s = ([], s)
  served (r ∷ rs) s =
      let (res, t) = handle_request to_string it r s in
      let (bytes, u) = served rs t in (reply res ++ bytes, u)

module _ (crates : Crates) (to_string : PeachDbError → Bytes) (it : Iteration) where
  answer-reply :
      (res : Outcome Response) (s : System) (input output : Bytes)
      → (r : Response) × (res ≡ ok r)
      → answer crates to_string it res s (connection input output)
        ≡ again (connection input (output ++ reply res)) s
  unfolding answer write_all
  answer-reply res s input output (r, e) = rw e

  -- A turn on a whole message.
  pub serve_turn-message :
      (m : Bytes) (s : System) (rest output : Bytes)
      → length m < 2 ^ 32
      → serve_turn crates to_string it (connection (sized m ++ rest) output) s
        ≡ serve_request crates to_string it (decode_request crates m) s (connection rest output)
  unfolding serve_turn serve_message
  serve_turn-message m s rest output short = rw (
    append_assoc size m rest,
    le→ltb (length (size ++ (m ++ rest))) 4 (omega (arith, four, length-append size (m ++ rest))),
    take_here 4 size (m ++ rest) four,
    drop_here 4 size (m ++ rest) four,
    from_be_bytes-to_be_bytes 4 (as_u32 (length m)) (omega arith),
    mod-eq_of_lt short,
    le→ltb (length (m ++ rest)) (length m) (omega (arith, length-append m rest)),
    take_here (length m) m rest refl,
    drop_here (length m) m rest refl,
  )
    where
      size : Bytes
      size = to_be_bytes 4 (as_u32 (length m))

      four : length size ≡ 4
      four = length-to_be_bytes 4 (as_u32 (length m))

  pub serve_turn-frame :
      (r : Request) (s : System) (rest output : Bytes)
      → IsSent r
      → serve_turn crates to_string it
          (connection (frame (encode_request r new_encoder) ++ rest) output)
          s
        ≡ again
            (connection rest (output ++ reply (handle_request to_string it r s).0))
            (handle_request to_string it r s).1
  unfolding serve_request frame
  serve_turn-frame r s rest output (valid, short) =
      rw
        (
          serve_turn-message (message r) s rest output short,
          decode_request-encode_request crates new_encoder r valid,
        )
        (answer-reply (handle_request to_string it r s).0 (handle_request to_string it r s).1 rest
          output (handle_request-answers to_string it r s))

  frame_takes :
      (r : Request) (rs : List Request)
      → length (request_frames rs) < length (request_frames (r ∷ rs))
  unfolding frame
  frame_takes r rs = omega (
    arith,
    length-append (frame (encode_request r new_encoder)) (request_frames rs),
    length-append (to_be_bytes 4 (as_u32 (length (message r)))) (message r),
    length-to_be_bytes 4 (as_u32 (length (message r))),
  )

  serve_turns-request_frames :
      (rs : List Request) (fuel : ℕ) (s : System) (output : Bytes)
      → All IsSent rs
      → length (request_frames rs) < fuel
      → serve_turns crates to_string it fuel (connection (request_frames rs) output) s ≡ (
        ok tt,
        connection [] (output ++ (served to_string it rs s).0),
        (served to_string it rs s).1,
      )
  unfolding serve_turns
  serve_turns-request_frames rs zero s output h enough = absurd (omega arith)
  serve_turns-request_frames [] (suc fuel) s output h enough =
      unfold serve_turn end_of_stream in rw append-nil
  serve_turns-request_frames (r ∷ rs) (suc fuel) s output (h, hs) enough =
      rw (serve_turn-frame r s (request_frames rs) output h) (
        serve_turns-request_frames rs fuel (handle_request to_string it r s).1
          (output ++ reply (handle_request to_string it r s).0) hs (omega (arith, frame_takes r rs))
        ∙ rw append_assoc)

  pub handle_connection-request_frames :
      (rs : List Request) (s : System)
      → All IsSent rs
      → handle_connection crates to_string it (connection (request_frames rs) []) s
        ≡ (ok tt, connection [] (served to_string it rs s).0, (served to_string it rs s).1)
  unfolding handle_connection
  handle_connection-request_frames rs s h =
      serve_turns-request_frames rs (suc (length (request_frames rs))) s [] h (omega arith)
