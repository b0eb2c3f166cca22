-- ===== src/Server/Protocol/Responses.antt =====
-- The responses of src/server/protocol.rs, encoded and decoded.
use peach_db.Base.{
  ℕ, zero, suc, ◌+◌, ◌≤◌, ◌<◌, ◌^◌, ◌≡◌, refl, sym, ◌∙◌, List, true, [], ◌∷◌, ◌++◌, none, some,
  arith, length, length-append, All, ltb, if◌then◌else◌,
}
use peach_db.Base.Words.{Bytes, as_u16, as_u32, to_be_bytes, length-to_be_bytes}
use peach_db.Base.Utf8.{is_utf8}
use peach_db.Error.{ok}
use peach_db.Cursor
use peach_db.Cursor.{Cursor, Crates, remaining, advance, read_exact}
use peach_db.Cursor.Laws.{
  ReadsBytes, ReadsBytes-be, read_u8_here, position_before_end, position_at_end,
}
use peach_db.Dtypes.Key
use peach_db.Dtypes.Key.{Key}
use peach_db.Dtypes.Field.{Field, primitive, raw, array}
use peach_db.Dtypes.Codec.Laws.{IsField}
use peach_db.Dtypes.Codec.{bytes_from_field}
use peach_db.Dtypes.Codec.RoundTrip.{field_from_bytes-bytes_from_field}
use peach_db.Db.WalCodec.RoundTrip.{IsKey, IsStored}
use peach_db.Server.Protocol.{
  Status, Response, ok_response, not_found, type_error, server_error, invalid_request, status_byte,
  status_from, encode_response, keys_payload, ProtocolEncoder, reset, encoder_bytes, read_keys,
  read_payload, decode_response,
}
use peach_db.Server.Protocol.RoundTrip.{read_key_here}
use mathlib.Core.List.{append_assoc, append-nil}
use native.Mathlib.Nat.{mod-eq_of_lt}

-- A response whose lengths fit their bytes, with a value that is well formed and a message in
-- UTF-8.
abbrev pub IsResponse : Response → Type 0
IsResponse (ok_response none) = Unit
IsResponse (ok_response (some field)) = IsStored field
IsResponse not_found = Unit
IsResponse type_error = Unit
IsResponse invalid_request = Unit
IsResponse (server_error msg) = (is_utf8 msg ≡ true) × (length msg < 2 ^ 32)
IsResponse (Response.keys ks) = All IsKey ks × (length (keys_payload ks) < 2 ^ 32)

keys_payload_shrinks :
    (key : Key) (ks : List Key) → length (keys_payload ks) < length (keys_payload (key ∷ ks))
unfolding keys_payload
keys_payload_shrinks key ks = omega (
  arith,
  length-append (to_be_bytes 2 (as_u16 (Key.len key))) (key.bytes ++ keys_payload ks),
  length-to_be_bytes 2 (as_u16 (Key.len key)),
  length-append key.bytes (keys_payload ks),
)

keys_payload_before_end :
    (c : Cursor) (key : Key) (ks : List Key)
    → remaining c ≡ keys_payload (key ∷ ks)
    → ltb c.position (length c.inner) ≡ true
unfolding keys_payload to_be_bytes peach_db.Base.Words.to_le_bytes
keys_payload_before_end c key ks here = position_before_end c _ _ here

module _ (crates : Crates) where
  status_from-status_byte : (status : Status) → status_from (status_byte status) ≡ ok status
  unfolding status_from status_byte
  status_from-status_byte Status.ok_status = refl
  status_from-status_byte Status.not_found = refl
  status_from-status_byte Status.type_error = refl
  status_from-status_byte Status.server_error = refl
  status_from-status_byte Status.invalid_request = refl
  status_from-status_byte Status.keys = refl

  -- A status and a payload with its length are taken apart.
  decode_response-payload :
      (status : Status) (payload : Bytes)
      → length payload < 2 ^ 32
      → decode_response crates
          (status_byte status ∷ (to_be_bytes 4 (as_u32 (length payload)) ++ payload))
        ≡ read_payload crates status payload
  unfolding decode_response
  decode_response-payload status payload small = rw (
    read_u8_here crates start (status_byte status) _ refl,
    status_from-status_byte status,
    p.size,
    p.content,
  )
    where
      start : Cursor
      start = Cursor.new (status_byte status ∷ (to_be_bytes 4 (as_u32 (length payload)) ++ payload))

      p : ReadsBytes crates.read_uint_be 4 (advance 1 start) payload []
      p =
          ReadsBytes-be crates 4 (advance 1 start) payload [] small
            (rw (append-nil payload, mod-eq_of_lt small))

  read_keys-keys_payload :
      (ks : List Key) (fuel : ℕ) (c : Cursor) (before : List Key)
      → All IsKey ks
      → length (keys_payload ks) ≤ fuel
      → remaining c ≡ keys_payload ks
      → read_keys crates fuel c before ≡ ok (before ++ ks)
  unfolding read_keys keys_payload
  read_keys-keys_payload [] zero c before h enough here = rw (position_at_end c here, append-nil)
  read_keys-keys_payload [] (suc fuel) c before h enough here =
      rw (position_at_end c here, append-nil)
  read_keys-keys_payload (key ∷ ks) zero c before h enough here =
      absurd (omega (arith, keys_payload_shrinks key ks))
  read_keys-keys_payload (key ∷ ks) (suc fuel) c before (short, hs) enough here =
      let (c', e, left) =
        read_key_here crates c key (keys_payload ks) short
          (here ∙ sym (append_assoc _ key.bytes (keys_payload ks))) in
      rw (keys_payload_before_end c key ks here, e)
        (read_keys-keys_payload ks fuel c' (before ++ key ∷ []) hs
            (omega (arith, keys_payload_shrinks key ks)) left
          ∙ rw append_assoc)

  read_payload-field :
      (field : Field)
      → IsField field
      → read_payload crates Status.ok_status (bytes_from_field field)
        ≡ ok (ok_response (some field))
  unfolding read_payload bytes_from_field
  read_payload-field (primitive p) valid =
      rw (field_from_bytes-bytes_from_field (primitive p) valid)
  read_payload-field (raw bytes) valid = rw (field_from_bytes-bytes_from_field (raw bytes) valid)
  read_payload-field (array dt ps) valid =
      rw (field_from_bytes-bytes_from_field (array dt ps) valid)

  -- A response is decoded as it was encoded if its value is well formed, its message is in UTF-8,
  -- each of its keys is shorter than 2 ^ 16 bytes and its payload shorter than 2 ^ 32; the encoder is
  -- new or was reset.
  pub decode_response-encode_response :
      (used : ProtocolEncoder) (r : Response)
      → IsResponse r
      → decode_response crates (encoder_bytes (encode_response r (reset used))) ≡ ok r
  unfolding encode_response read_payload to_be_bytes peach_db.Base.Words.to_le_bytes
  decode_response-encode_response used (ok_response none) h =
      decode_response-payload Status.ok_status [] (omega arith)
  decode_response-encode_response used (ok_response (some field)) (valid, small) =
      decode_response-payload Status.ok_status (bytes_from_field field) small
      ∙ read_payload-field field valid
  decode_response-encode_response used not_found h =
      decode_response-payload Status.not_found [] (omega arith)
  decode_response-encode_response used type_error h =
      decode_response-payload Status.type_error [] (omega arith)
  decode_response-encode_response used invalid_request h =
      decode_response-payload Status.invalid_request [] (omega arith)
  decode_response-encode_response used (server_error msg) (text, small) =
      rw (decode_response-payload Status.server_error msg small, text)
  decode_response-encode_response used (Response.keys ks) (short, small) = rw (
    decode_response-payload Status.keys (keys_payload ks) small,
    read_keys-keys_payload ks (length (keys_payload ks)) (Cursor.new (keys_payload ks)) [] short
        (omega arith) refl,
  )
