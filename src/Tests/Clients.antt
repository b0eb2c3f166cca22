-- ===== src/Tests/Clients.antt =====
-- The command-line client at concrete arguments.
use peach_db.Base.{◌≡◌, refl, none, List, [], ◌∷◌, arith, inl}
use peach_db.Base.Int64.{negsuc, pos}
use peach_db.Base.Keys.{bytes_eq}
use peach_db.Base.Text.{ascii, parse_digits, parse_i64, display_nat, display_i64, digits}
use peach_db.Base.Utf8.{is_utf8}
use peach_db.Base.Words.{Bytes, to_le_bytes, to_be_bytes}
use peach_db.Base.HashMap
use peach_db.Dtypes.Field.{primitive, integer}
use peach_db.Error.{ok, unexpected_eof}
use peach_db.Db.Database
use peach_db.Server.Protocol.{
  Request, not_found, encode_request, encode_response, new_encoder, frame,
}
use peach_db.Server.Handler.{handle_request}
use peach_db.Server.Connection.{handle_connection}
use peach_db.Server.Connection.Pipeline.{IsSent, connection}
use peach_db.Cli.Arguments
use peach_db.Cli.Arguments.{parse_addr, parse_value, build_request, build_get, require_arg}
use peach_db.Cli.Display.{print_response, display_field, display_primitive, println}
use peach_db.Cli.{World, main}
use peach_db.Cli.Value.{parse_value-display_i64}
use peach_db.Cli.Session.{IsAnswered, connected, main-handle_request}
use peach_db.Cli.SetGet.{main-set-get}
use peach_db.Tests.Sample.{sample_crates, sample_iteration, sample_text, empty_files}

abbrev sample_world : World
sample_world = record {
  crates = sample_crates;
  to_string = sample_text;
  display_io = λ kind. [];
  parse_f64 = λ text. none;
  display_f64 = λ f. [];
  connect = λ addr. inl unexpected_eof;
}

parse_value-display_i64_example :
    (parse_value (λ text. none) (ascii "-42") ≡ primitive (integer (negsuc 41)))
    × (display_field (λ f. []) (parse_value (λ text. none) (ascii "-42")) ≡ ascii "Integer(-42)")
unfolding display_i64 display_nat digits
parse_value-display_i64_example =
    parse_value-display_i64 (λ text. none) (λ f. []) (negsuc 41) (omega arith)

abbrev get_args : List Bytes
get_args = ascii "--addr" ∷ ascii "h:1" ∷ ascii "get" ∷ ascii "k" ∷ []

abbrev get_request : Request
get_request = Request.get (record { bytes = ascii "k" })

get_parsed : parse_addr get_args ≡ (ascii "h:1", ascii "get" ∷ ascii "k" ∷ [])
unfolding parse_addr bytes_eq
get_parsed = refl

get_built : build_request (λ text. none) (ascii "get" ∷ ascii "k" ∷ []) ≡ Arguments.ok get_request
unfolding build_request build_get require_arg bytes_eq
get_built = refl

get_request-IsSent : IsSent get_request
unfolding encode_request to_be_bytes to_le_bytes
get_request-IsSent = (omega arith, omega arith)

get_answered :
    (handle_request sample_text sample_iteration get_request empty_files).0 ≡ ok not_found
unfolding handle_request Database.get HashMap.get
get_answered = refl

not_found-IsAnswered : IsAnswered not_found
unfolding encode_response to_be_bytes to_le_bytes
not_found-IsAnswered = (tt, omega arith)

main-handle_request_example :
    main (connected sample_world sample_iteration empty_files) get_args
    ≡ println (ascii "NOT FOUND")
unfolding print_response
main-handle_request_example =
    main-handle_request sample_world sample_iteration get_args (ascii "k" ∷ []) (ascii "h:1")
      (ascii "get") get_request not_found empty_files get_parsed get_built get_request-IsSent
      get_answered not_found-IsAnswered

main-set-get_example :
    (main
        (connected sample_world sample_iteration empty_files)
        (ascii "set" ∷ ascii "k" ∷ ascii "7" ∷ [])
      ≡ println (ascii "OK"))
    × (main
          (connected sample_world sample_iteration
            (handle_connection sample_crates sample_text sample_iteration
              (connection
                (frame (
                  encode_request
                    (Request.set (record { bytes = ascii "k" }) (primitive (integer (pos 7))))
                    new_encoder))
                [])
              empty_files).2)
          (ascii "get" ∷ ascii "k" ∷ [])
        ≡ println (ascii "Integer(7)"))
unfolding parse_value parse_i64 parse_digits bytes_eq display_field display_primitive display_i64
    display_nat digits is_utf8
main-set-get_example =
    main-set-get sample_world sample_iteration (λ text f h. cc) (ascii "k") (ascii "7") empty_files
      (omega arith) refl (omega arith) refl
