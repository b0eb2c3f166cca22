-- ===== src/Tests/Requests.antt =====
-- The protocol and the handler at concrete requests.
use peach_db.Base.{ℕ, ◌+◌, ◌^◌, ◌≡◌, ◌<◌, refl, [], ◌∷◌, none, some, arith, length}
use peach_db.Base.Words.{Bytes, from_le_bytes}
use peach_db.Error.{ok}
use peach_db.Server.Protocol.{
  Request, Response, ok_response, not_found, encode_request, encode_response, new_encoder,
  ProtocolEncoder, reset, encoder_bytes, keys_payload, decode_request, decode_response,
}
use peach_db.Server.Protocol.RoundTrip.{decode_request-encode_request}
use peach_db.Server.Protocol.Responses.{decode_response-encode_response}
use peach_db.Server.Handler.{handle_request}
use peach_db.Server.Handler.Replies.{handle_request-del-get}
use peach_db.Tests.Sample.{
  sample_crates, sample_iteration, sample_text, key_a, key_b, blob, key_a-short, key_b-short,
  blob-IsStored, empty_files,
}

abbrev used_encoder : ProtocolEncoder
used_encoder = encode_response not_found new_encoder

decode_request-encode_request_example :
    decode_request sample_crates
      (encoder_bytes (encode_request (Request.set key_a blob) (reset used_encoder)))
    ≡ ok (Request.set key_a blob)
decode_request-encode_request_example =
    decode_request-encode_request sample_crates used_encoder (Request.set key_a blob)
      (key_a-short, blob-IsStored)

few_keys : length (keys_payload (key_a ∷ key_b ∷ [])) < 2 ^ 32
unfolding keys_payload peach_db.Base.Words.to_be_bytes peach_db.Base.Words.to_le_bytes
few_keys = omega arith

decode_response-encode_response_example :
    decode_response sample_crates
      (encoder_bytes (encode_response (Response.keys (key_a ∷ key_b ∷ [])) (reset used_encoder)))
    ≡ ok (Response.keys (key_a ∷ key_b ∷ []))
decode_response-encode_response_example =
    decode_response-encode_response sample_crates used_encoder (Response.keys (key_a ∷ key_b ∷ []))
      ((key_a-short, (key_b-short, tt)), few_keys)

handle_request-del-get_example :
    ((handle_request sample_text sample_iteration (Request.del key_a) empty_files).0
      ≡ ok (ok_response none))
    × ((handle_request sample_text sample_iteration
          (Request.get key_a)
          (handle_request sample_text sample_iteration (Request.del key_a) empty_files).1).0
        ≡ ok not_found)
handle_request-del-get_example =
    handle_request-del-get sample_text sample_iteration key_a empty_files refl
