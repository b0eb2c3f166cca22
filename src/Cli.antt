-- ===== src/Cli.antt =====
-- examples/peachdb-cli.rs: `main` of the command-line client, and what it reads and writes.
pub mod Arguments
pub mod Display
pub mod Value
pub mod Session
pub mod SetGet
use peach_db.Base.{
  ℕ, zero, suc, Bool, true, false, Option, none, some, List, [], ◌∷◌, ◌++◌, ltb, length, take, drop,
  if◌then◌else◌, ◌⊎◌, inl, inr,
}
use peach_db.Base.Int64.{ℤ}
use peach_db.Base.Keys.{bytes_eq}
use peach_db.Base.Text.{ascii, parse_i64, display_nat, display_i64}
use peach_db.Base.Utf8.{from_utf8_lossy}
use peach_db.Base.Words.{Bytes, from_be_bytes}
use peach_db.Cursor.{Crates}
use peach_db.Dtypes.Dtype
use peach_db.Dtypes.Dtype.{Dtype}
use peach_db.Dtypes.Key
use peach_db.Dtypes.Key.{Key}
use peach_db.Dtypes.Field.{Field, Primitive, primitive, raw, array, integer, float, string, boolean}
use peach_db.Error.{Outcome, PeachDbError, IoErrorKind}
use peach_db.Server.Protocol.{
  Request, Response, ok_response, not_found, type_error, server_error, invalid_request,
  encode_request, decode_response, new_encoder, frame,
}
use peach_db.Cli.Arguments.{
  Attempt, ◌>>=◌, addr_flag, default_addr, usage, parse_addr, get_elem?, given, require_arg,
  parse_float, parse_number, parse_value, build_get, build_del, build_set, build_request, ok, err,
  panic, diverged,
}
use peach_db.Cli.Display.{
  Output, println, fail, panicked, debug_dtype, display_bool, display_primitive, display_field,
  key_lines, print_response,
}

-- A stream as the client meets it: whether its write fails, and the bytes that the peer sends for those
-- that it was sent, with the error of a read behind them.
pub record Stream : Type 0 where
  pub breaks : Option IoErrorKind
  pub answer : Bytes → Bytes × IoErrorKind

module _ (display_io : IoErrorKind → Bytes) where
  -- The bytes that the peer answers with.
  abbrev pub write_all : Bytes → Stream → Attempt (Bytes × IoErrorKind)
  write_all bytes stream = elim stream.breaks [
    | none ↦ ok (stream.answer bytes)
    | some kind ↦ err (display_io kind)
  ]

  unfoldable pub send_request : Request → Stream → Attempt (Bytes × IoErrorKind)
  send_request req stream = write_all (frame (encode_request req new_encoder)) stream

  abbrev pub read_exact : ℕ → Bytes × IoErrorKind → Attempt (Bytes × Bytes × IoErrorKind)
  read_exact n (bytes, at_end) =
      if ltb (length bytes) n
      then err (display_io at_end)
      else ok (take n bytes, drop n bytes, at_end)

  abbrev pub decoded : (PeachDbError → Bytes) → Outcome Response → Attempt Response
  decoded to_string (Outcome.ok res) = ok res
  decoded to_string (Outcome.err e) = err (to_string e)
  decoded to_string Outcome.panic = panic
  decoded to_string Outcome.diverged = diverged

  unfoldable pub read_response :
      Crates → (PeachDbError → Bytes) → Bytes × IoErrorKind → Attempt Response
  read_response crates to_string stream = do
    (len_buf, bytes, at_end) ← read_exact 4 stream
    (buf, rest, at_end) ← read_exact (from_be_bytes len_buf) (bytes, at_end)
    decoded to_string (decode_response crates buf)

-- What the program takes from elsewhere: the crates, the texts of errors and of floats, and the network.
pub record World : Type 0 where
  pub crates : Crates
  pub to_string : PeachDbError → Bytes
  pub display_io : IoErrorKind → Bytes
  pub parse_f64 : Bytes → Option ℕ
  pub display_f64 : ℕ → Bytes
  pub connect : Bytes → IoErrorKind ⊎ Stream

module _ (world : World) where
  -- The matches of `main`, the last first.
  unfoldable pub finish : Attempt Response → Output
  finish (ok res) = print_response world.display_f64 res
  finish (err e) = fail (ascii "error: failed to read response: " ++ e)
  finish panic = panicked
  finish diverged = panicked

  unfoldable pub after_sending : Attempt (Bytes × IoErrorKind) → Output
  after_sending (ok stream) =
      finish (read_response world.display_io world.crates world.to_string stream)
  after_sending (err e) = fail (ascii "error: failed to send request: " ++ e)
  after_sending panic = panicked
  after_sending diverged = panicked

  unfoldable pub exchange : Bytes → Request → IoErrorKind ⊎ Stream → Output
  exchange addr req (inl kind) =
      fail (ascii "error: could not connect to " ++ (addr ++ (ascii ": " ++ world.display_io kind)))
  exchange addr req (inr stream) = after_sending (send_request world.display_io req stream)

  unfoldable pub run_request : Bytes → Attempt Request → Output
  run_request addr (ok req) = exchange addr req (world.connect addr)
  run_request addr (err msg) = fail (ascii "error: " ++ (msg ++ (ascii "\n" ++ usage)))
  run_request addr panic = panicked
  run_request addr diverged = panicked

  unfoldable pub run_args : Bytes → List Bytes → Output
  run_args addr [] = fail usage
  run_args addr (a ∷ rest) = run_request addr (build_request world.parse_f64 (a ∷ rest))

  -- The arguments behind the name of the program.
  unfoldable pub main : List Bytes → Output
  main args = let (addr, rest) = parse_addr args in run_args addr rest
