-- ===== src/Cli/SetGet.antt =====
-- `set` and then `get` of examples/peachdb-cli.rs against `Server::handle_connection` of
-- src/server/server.rs.
use peach_db.Base.{
  ℕ, ◌+◌, ◌≤◌, ◌<◌, ◌^◌, ◌≡◌, refl, true, none, some, List, [], ◌∷◌, ◌++◌, arith, length,
  length-append,
}
use peach_db.Base.Keys.{bytes_eq}
use peach_db.Base.Text.{ascii}
use peach_db.Base.Utf8.{is_utf8}
use peach_db.Base.Words.{Bytes, as_u16, as_u32, to_le_bytes, to_be_bytes, length-to_be_bytes}
use peach_db.Dtypes.Key
use peach_db.Dtypes.Key.{Key}
use peach_db.Dtypes.Field.{Field}
use peach_db.Dtypes.Codec.{bytes_from_field}
use peach_db.Dtypes.Codec.Laws.{IsField}
use peach_db.Db.System.{System}
use peach_db.Db.Database.{Iteration}
use peach_db.Server.Protocol.{
  Request, ok_response, encode_request, encode_response, new_encoder, frame,
}
use peach_db.Server.Handler.{handle_request}
use peach_db.Server.Handler.Replies.{handle_request-set-get}
use peach_db.Server.Connection.{handle_connection}
use peach_db.Server.Connection.Pipeline.{IsSent, connection}
use peach_db.Cli.Arguments
use peach_db.Cli.Arguments.{
  parse_addr, require_arg, build_get, build_set, build_request, parse_value,
}
use peach_db.Cli.Display.{println, print_response, display_field}
use peach_db.Cli.{World, main}
use peach_db.Cli.Value.{parse_value-IsField, length-parse_value}
use peach_db.Cli.Session.{IsAnswered, connected, state-frame, main-handle_request}

module _ (world : World) (it : Iteration)
    (f64_fits : (text : Bytes) (f : ℕ) → world.parse_f64 text ≡ some f → f < 2 ^ 64)
    (key value : Bytes) (s : System) (short : length key < 2 ^ 16) (text : is_utf8 value ≡ true)
    (small : length value < 2 ^ 31) (calm : s.fates ≡ []) where
  abbrev field : Field
  field = parse_value world.parse_f64 value

  abbrev set_args : List Bytes
  set_args = ascii "set" ∷ key ∷ value ∷ []

  abbrev get_args : List Bytes
  get_args = ascii "get" ∷ key ∷ []

  abbrev set_request : Request
  set_request = Request.set (Key.from key) field

  abbrev get_request : Request
  get_request = Request.get (Key.from key)

  abbrev payload : Bytes
  payload = bytes_from_field field

  field-IsField : IsField field
  field-IsField = parse_value-IsField world.parse_f64 f64_fits value text (omega arith)

  field_small : length (bytes_from_field field) ≤ 9 + length value
  field_small = length-parse_value world.parse_f64 value

  set_request-IsSent : IsSent set_request
  unfolding encode_request
  set_request-IsSent = (
    (short, (field-IsField, omega (arith, field_small))),
    omega (
      arith,
      length-append (to_be_bytes 2 (as_u16 (length key))) key,
      length-to_be_bytes 2 (as_u16 (length key)),
      length-append (to_be_bytes 2 (as_u16 (length key)) ++ key)
          (to_be_bytes 4 (as_u32 (length payload))),
      length-to_be_bytes 4 (as_u32 (length payload)),
      length-append
          ((to_be_bytes 2 (as_u16 (length key)) ++ key) ++ to_be_bytes 4 (as_u32 (length payload)))
          payload,
      field_small,
    ),
  )

  get_request-IsSent : IsSent get_request
  unfolding encode_request
  get_request-IsSent = (
    short,
    omega (
      arith,
      length-append (to_be_bytes 2 (as_u16 (length key))) key,
      length-to_be_bytes 2 (as_u16 (length key)),
    ),
  )

  set_built : build_request world.parse_f64 set_args ≡ Arguments.ok set_request
  unfolding build_request build_set require_arg bytes_eq
  set_built = refl

  get_built : build_request world.parse_f64 get_args ≡ Arguments.ok get_request
  unfolding build_request build_get require_arg bytes_eq
  get_built = refl

  set_parsed : parse_addr set_args ≡ (Arguments.default_addr, set_args)
  unfolding parse_addr bytes_eq
  set_parsed = refl

  get_parsed : parse_addr get_args ≡ (Arguments.default_addr, get_args)
  unfolding parse_addr bytes_eq
  get_parsed = refl

  field-IsAnswered : IsAnswered (ok_response (some field))
  unfolding encode_response
  field-IsAnswered = (
    (field-IsField, omega (arith, field_small)),
    omega (
      arith,
      length-append (to_be_bytes 4 (as_u32 (length payload))) payload,
      length-to_be_bytes 4 (as_u32 (length payload)),
      field_small,
    ),
  )

  done-IsAnswered : IsAnswered (ok_response none)
  unfolding encode_response to_be_bytes to_le_bytes
  done-IsAnswered = (tt, omega arith)

  -- `set` of a key shorter than 2 ^ 16 bytes and a text in UTF-8 shorter than 2 ^ 31 bytes, against a
  -- server whose system calls are all done, prints `OK`, and `get` of the key, against the server in
  -- the state that the `set` left, prints the value that the text was typed as. (Every float that is
  -- read has 64 bits.)
  pub main-set-get :
      (main (connected world it s) set_args ≡ println (ascii "OK"))
      × (main
            (connected world it
              (handle_connection world.crates world.to_string it
                (connection (frame (encode_request set_request new_encoder)) [])
                s).2)
            get_args
          ≡ println (display_field world.display_f64 field))
  unfolding print_response
  main-set-get =
      let (was_set, was_got) =
        handle_request-set-get world.to_string it (Key.from key) field s calm in
      (
        main-handle_request world it set_args (key ∷ value ∷ []) Arguments.default_addr
            (ascii "set") set_request (ok_response none) s set_parsed set_built set_request-IsSent
            was_set done-IsAnswered,
        rw (state-frame world.crates world.to_string it set_request s set_request-IsSent) (
            main-handle_request world it get_args (key ∷ []) Arguments.default_addr (ascii "get")
              get_request (ok_response (some field))
              (handle_request world.to_string it set_request s).1 get_parsed get_built
              get_request-IsSent was_got field-IsAnswered),
      )
