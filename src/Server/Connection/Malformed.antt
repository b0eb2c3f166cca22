-- ===== src/Server/Connection/Malformed.antt =====
-- `Server::handle_connection` of src/server/server.rs on messages that are no requests.
use peach_db.Base.{◌+◌, ◌≤◌, ◌<◌, ◌^◌, ◌≡◌, ◌++◌, ◌∷◌, length, take}
use peach_db.Base.Words.{Bytes, from_le_bytes}
use peach_db.Error.{err, panic, PeachDbError}
use peach_db.Cursor.{Crates}
use peach_db.Dtypes.Key.{Key}
use peach_db.Db.System.{System}
use peach_db.Db.Database.{Iteration}
use peach_db.Db.WalCodec.RoundTrip.{IsKey}
use peach_db.Server.Protocol.{invalid_request, decode_request}
use peach_db.Server.Protocol.Inputs.{string_request, decode_request_panics}
use peach_db.Server.Connection.{
  again, write_all, send_response, response_bytes, serve_request, serve_turn, serve_turns,
  handle_connection,
}
use peach_db.Server.Connection.Pipeline.{connection, sized, serve_turn-message}

module _ (crates : Crates) (to_string : PeachDbError → Bytes) (it : Iteration) where
  -- A turn on a message that `decode_request` refuses, where the answer can be written.
  pub serve_turn-invalid_request :
      (m : Bytes) (e : PeachDbError) (s : System) (rest output : Bytes)
      → length m < 2 ^ 32
      → decode_request crates m ≡ err e
      → serve_turn crates to_string it (connection (sized m ++ rest) output) s
        ≡ again (connection rest (output ++ response_bytes invalid_request)) s
  unfolding serve_request send_response write_all
  serve_turn-invalid_request m e s rest output short refused =
      rw (serve_turn-message crates to_string it m s rest output short, refused)

  -- A `Set` message, shorter than 2 ^ 32 bytes, of a string that announces more bytes than its payload
  -- has ends the connection in a panic: neither it nor what follows it is answered.
  pub handle_connection_panics :
      (key : Key) (buf : Bytes) (s : System) (rest output : Bytes)
      → IsKey key
      → length (string_request key buf) < 2 ^ 32
      → length (3 ∷ buf) < 2 ^ 32
      → 4 ≤ length buf
      → length buf < 4 + from_le_bytes (take 4 buf)
      → handle_connection crates to_string it
          (connection (sized (string_request key buf) ++ rest) output)
          s
        ≡ (panic, connection rest output, s)
  unfolding handle_connection serve_turns serve_request
  handle_connection_panics key buf s rest output short small fits header cut = rw (
    serve_turn-message crates to_string it (string_request key buf) s rest output small,
    decode_request_panics crates key buf short fits header cut,
  )
