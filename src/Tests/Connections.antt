-- ===== src/Tests/Connections.antt =====
-- Whole connections at concrete inputs.
use peach_db.Base.{ℕ, inr, ◌+◌, ◌^◌, ◌≡◌, ◌≢◌, ◌<◌, refl, List, [], ◌∷◌, ◌++◌, arith, length}
use peach_db.Base.Words.{Bytes, from_le_bytes}
use peach_db.Error.{ok, panic, diverged}
use peach_db.Dtypes.Codec.{bytes_from_field}
use peach_db.Server.Protocol.{Request, encode_request}
use peach_db.Server.Protocol.Inputs.{string_request}
use peach_db.Server.Connection.{handle_connection}
use peach_db.Server.Connection.Pipeline.{connection, sized, message, request_frames}
use peach_db.Server.Connection.Malformed.{handle_connection_panics}
use peach_db.Server.Connection.Mixed.{
  Message, request, empty, other_version, other_command, message_frames, responses,
  handle_connection-message_frames,
}
use peach_db.Server.Connection.Termination.{handle_connection-ne-diverged}
use peach_db.Tests.Sample.{
  sample_crates, sample_iteration, sample_text, key_a, blob, key_a-short, blob-IsStored,
  empty_files,
}

abbrev requests : List Request
requests = Request.set key_a blob ∷ Request.get key_a ∷ []

set-short : length (message (Request.set key_a blob)) < 2 ^ 32
unfolding encode_request bytes_from_field peach_db.Base.Words.to_be_bytes
    peach_db.Base.Words.to_le_bytes
set-short = omega arith

get-short : length (message (Request.get key_a)) < 2 ^ 32
unfolding encode_request peach_db.Base.Words.to_be_bytes peach_db.Base.Words.to_le_bytes
get-short = omega arith

-- A set, a message of another version, an empty one, one of an unknown command, and a get.
abbrev mixed : List Message
mixed =
    request (Request.set key_a blob)
    ∷ other_version 9 (1 ∷ [])
    ∷ empty
    ∷ other_command 6 []
    ∷ request (Request.get key_a)
    ∷ []

version_nine : ◌≢◌ {A = ℕ} 9 1
version_nine = λ same. omega (arith, same)

handle_connection-message_frames_example :
    handle_connection sample_crates sample_text sample_iteration
      (connection (message_frames mixed) [])
      empty_files
    ≡ (
      ok tt,
      connection [] (responses sample_text sample_iteration mixed empty_files).0,
      (responses sample_text sample_iteration mixed empty_files).1,
    )
handle_connection-message_frames_example =
    handle_connection-message_frames sample_crates sample_text sample_iteration mixed empty_files (
      ((key_a-short, blob-IsStored), set-short),
      (
        (version_nine, omega arith),
        (tt, ((inr (omega arith), omega arith), ((key_a-short, get-short), tt))),
      ),
    )

abbrev cut_string : Bytes
cut_string = 5 ∷ 0 ∷ 0 ∷ 0 ∷ 120 ∷ []

cut_string-short : length cut_string < 4 + from_le_bytes (5 ∷ 0 ∷ 0 ∷ 0 ∷ [])
unfolding from_le_bytes
cut_string-short = omega arith

string_request-short : length (string_request key_a cut_string) < 2 ^ 32
unfolding peach_db.Base.Words.to_be_bytes peach_db.Base.Words.to_le_bytes
string_request-short = omega arith

handle_connection_panics_example :
    handle_connection sample_crates sample_text sample_iteration
      (connection (sized (string_request key_a cut_string) ++ request_frames requests) [])
      empty_files
    ≡ (panic, connection (request_frames requests) [], empty_files)
handle_connection_panics_example =
    handle_connection_panics sample_crates sample_text sample_iteration key_a cut_string empty_files
      (request_frames requests) [] key_a-short string_request-short (omega arith) (omega arith)
      cut_string-short

handle_connection-ne-diverged_example :
    (handle_connection sample_crates sample_text sample_iteration
      (connection (sized (9 ∷ []) ++ (0 ∷ 0 ∷ [])) [])
      empty_files).0
    ≢ diverged
handle_connection-ne-diverged_example =
    handle_connection-ne-diverged sample_crates sample_text sample_iteration
      (connection (sized (9 ∷ []) ++ (0 ∷ 0 ∷ [])) []) empty_files
