-- ===== src/Server/Protocol.antt =====
-- src/server/protocol.rs: requests and responses, their encoder and their decoder.
pub mod RoundTrip
pub mod Responses
pub mod Inputs
pub mod Decoded
use peach_db.Base.{
  ℕ, zero, suc, ◌+◌, Bool, not, Option, none, some, List, [], ◌∷◌, ◌++◌, ltb, ◌==◌, length,
  if◌then◌else◌,
}
use peach_db.Base.Words.{Bytes, as_u16, as_u32, to_be_bytes}
use peach_db.Base.Utf8.{is_utf8}
use peach_db.Error.{Outcome, ok, err, diverged, unknown_command, invalid_request_format, ◌>>=◌}
use peach_db.Cursor
use peach_db.Cursor.{Cursor, Crates, read_exact}
use peach_db.Dtypes.Key
use peach_db.Dtypes.Key.{Key}
use peach_db.Dtypes.Field.{Field}
use peach_db.Dtypes.Codec.{bytes_from_field, field_from_bytes}

pub data Command : Type 0 where
  ping get set del keys : Command

unfoldable pub command_from : ℕ → Outcome Command
command_from b =
    if b == 0x01
    then ok Command.ping
    else if b == 0x02
    then ok Command.get
    else if b == 0x03
    then ok Command.set
    else if b == 0x04
    then ok Command.del
    else if b == 0x05
    then ok Command.keys
    else err (unknown_command b)

unfoldable pub command_byte : Command → ℕ
command_byte Command.ping = 0x01
command_byte Command.get = 0x02
command_byte Command.set = 0x03
command_byte Command.del = 0x04
command_byte Command.keys = 0x05

pub data Request : Type 0 where
  ping : Request
  get : Key → Request
  set : Key → Field → Request
  del : Key → Request
  keys : Request

pub data Status : Type 0 where
  ok_status not_found type_error server_error invalid_request keys : Status

unfoldable pub status_from : ℕ → Outcome Status
status_from b =
    if b == 0x00
    then ok Status.ok_status
    else if b == 0x01
    then ok Status.not_found
    else if b == 0x02
    then ok Status.type_error
    else if b == 0x03
    then ok Status.server_error
    else if b == 0x04
    then ok Status.invalid_request
    else if b == 0x05
    then ok Status.keys
    else err (unknown_command b)

unfoldable pub status_byte : Status → ℕ
status_byte Status.ok_status = 0x00
status_byte Status.not_found = 0x01
status_byte Status.type_error = 0x02
status_byte Status.server_error = 0x03
status_byte Status.invalid_request = 0x04
status_byte Status.keys = 0x05

-- The text of a server error by its UTF-8 bytes.
pub data Response : Type 0 where
  ok_response : Option Field → Response
  not_found : Response
  type_error : Response
  server_error : Bytes → Response
  invalid_request : Response
  keys : List Key → Response

pub record ProtocolEncoder : Type 0 where
  pub buffer : Bytes

abbrev pub new_encoder : ProtocolEncoder
new_encoder = record { buffer = [] }

abbrev pub write : Bytes → ProtocolEncoder → ProtocolEncoder
write bytes e = record { buffer = e.buffer ++ bytes }

abbrev pub encode_u8 : ℕ → ProtocolEncoder → ProtocolEncoder
encode_u8 val e = write (val ∷ []) e

abbrev pub encode_u16_be : ℕ → ProtocolEncoder → ProtocolEncoder
encode_u16_be val e = write (to_be_bytes 2 val) e

abbrev pub encode_u32_be : ℕ → ProtocolEncoder → ProtocolEncoder
encode_u32_be val e = write (to_be_bytes 4 val) e

abbrev pub encode_key : Key → ProtocolEncoder → ProtocolEncoder
encode_key key e = write (Key.as_bytes key) (encode_u16_be (as_u16 (Key.len key)) e)

-- A length as u32 and as many bytes: a field, a message, a list of keys.
abbrev pub encode_payload : Bytes → ProtocolEncoder → ProtocolEncoder
encode_payload bytes e = write bytes (encode_u32_be (as_u32 (length bytes)) e)

unfoldable pub encode_request : Request → ProtocolEncoder → ProtocolEncoder
encode_request Request.ping e = encode_u8 (command_byte Command.ping) (encode_u8 0x01 e)
encode_request Request.keys e = encode_u8 (command_byte Command.keys) (encode_u8 0x01 e)
encode_request (Request.get key) e =
    encode_key key (encode_u8 (command_byte Command.get) (encode_u8 0x01 e))
encode_request (Request.del key) e =
    encode_key key (encode_u8 (command_byte Command.del) (encode_u8 0x01 e))
encode_request (Request.set key field) e =
    encode_payload (bytes_from_field field)
      (encode_key key (encode_u8 (command_byte Command.set) (encode_u8 0x01 e)))

-- The loop that fills the payload of a list of keys.
unfoldable pub keys_payload : List Key → Bytes
keys_payload [] = []
keys_payload (key ∷ ks) = to_be_bytes 2 (as_u16 (Key.len key)) ++ (key.bytes ++ keys_payload ks)

abbrev pub encode_empty : Status → ProtocolEncoder → ProtocolEncoder
encode_empty status e = encode_u32_be 0 (encode_u8 (status_byte status) e)

unfoldable pub encode_response : Response → ProtocolEncoder → ProtocolEncoder
encode_response (ok_response none) e = encode_empty Status.ok_status e
encode_response (ok_response (some field)) e =
    encode_payload (bytes_from_field field) (encode_u8 (status_byte Status.ok_status) e)
encode_response Response.not_found e = encode_empty Status.not_found e
encode_response Response.type_error e = encode_empty Status.type_error e
encode_response Response.invalid_request e = encode_empty Status.invalid_request e
encode_response (Response.server_error msg) e =
    encode_payload msg (encode_u8 (status_byte Status.server_error) e)
encode_response (Response.keys ks) e =
    encode_payload (keys_payload ks) (encode_u8 (status_byte Status.keys) e)

abbrev pub encoder_bytes : ProtocolEncoder → Bytes
encoder_bytes e = e.buffer

abbrev pub reset : ProtocolEncoder → ProtocolEncoder
reset e = record { buffer = [] }

unfoldable pub frame : ProtocolEncoder → Bytes
frame e = to_be_bytes 4 (as_u32 (length e.buffer)) ++ e.buffer

-- The struct holds a cursor and nothing else.
abbrev pub ProtocolDecoder : Type 0
ProtocolDecoder = Cursor

abbrev pub new_decoder : Bytes → ProtocolDecoder
new_decoder bytes = Cursor.new bytes

module _ (crates : Crates) where
  abbrev pub read_u8 : ProtocolDecoder → Outcome (ℕ × ProtocolDecoder)
  read_u8 c = crates.read_uint_le 1 c

  abbrev pub read_u16_be : ProtocolDecoder → Outcome (ℕ × ProtocolDecoder)
  read_u16_be c = crates.read_uint_be 2 c

  abbrev pub read_u32_be : ProtocolDecoder → Outcome (ℕ × ProtocolDecoder)
  read_u32_be c = crates.read_uint_be 4 c

  unfoldable pub read_key : ProtocolDecoder → Outcome (Key × ProtocolDecoder)
  read_key c = do (len, c₁) ← read_u16_be c; (buf, c₂) ← read_exact len c₁; ok (Key.from buf, c₂)

  unfoldable pub read_field : ProtocolDecoder → Outcome (Field × ProtocolDecoder)
  read_field c = do
    (len, c₁) ← read_u32_be c
    (buf, c₂) ← read_exact len c₁
    (field, consumed) ← field_from_bytes buf
    ok (field, c₂)

  -- The match on the command in `decode_request`.
  unfoldable pub read_arguments : Command → ProtocolDecoder → Outcome Request
  read_arguments Command.ping c = ok Request.ping
  read_arguments Command.keys c = ok Request.keys
  read_arguments Command.get c = do (key, c₁) ← read_key c; ok (Request.get key)
  read_arguments Command.del c = do (key, c₁) ← read_key c; ok (Request.del key)
  read_arguments Command.set c = do
    (key, c₁) ← read_key c
    (field, c₂) ← read_field c₁
    ok (Request.set key field)

  unfoldable pub read_command : ProtocolDecoder → Outcome Request
  read_command c = do (b, c₁) ← read_u8 c; cmd ← command_from b; read_arguments cmd c₁

  unfoldable pub decode_request : Bytes → Outcome Request
  decode_request bytes = do
    (version, c) ← read_u8 (new_decoder bytes)
    if not (version == 0x01) then err (invalid_request_format "invalid version") else read_command c

  -- `while cursor.position() < cursor.get_ref().len()`, on fuel.
  unfoldable pub read_keys : ℕ → Cursor → List Key → Outcome (List Key)
  read_keys zero c ks = if ltb c.position (length c.inner) then diverged else ok ks
  read_keys (suc fuel) c ks =
      let rest = (do (key, c') ← read_key c; read_keys fuel c' (ks ++ key ∷ [])) in
      if ltb c.position (length c.inner) then rest else ok ks

  -- The match on the status in `decode_response`. A key takes two bytes at least, so the length of
  -- the payload is fuel enough.
  unfoldable pub read_payload : Status → Bytes → Outcome Response
  read_payload Status.ok_status [] = ok (ok_response none)
  read_payload Status.ok_status (b ∷ payload) = do
    (field, consumed) ← field_from_bytes (b ∷ payload)
    ok (ok_response (some field))
  read_payload Status.not_found payload = ok Response.not_found
  read_payload Status.type_error payload = ok Response.type_error
  read_payload Status.invalid_request payload = ok Response.invalid_request
  read_payload Status.server_error payload =
      if is_utf8 payload
      then ok (Response.server_error payload)
      else err (invalid_request_format "invalid utf8 in error message")
  read_payload Status.keys payload = do
    ks ← read_keys (length payload) (Cursor.new payload) []
    ok (Response.keys ks)

  unfoldable pub decode_response : Bytes → Outcome Response
  decode_response bytes = do
    (b, c₁) ← read_u8 (new_decoder bytes)
    status ← status_from b
    (payload_len, c₂) ← read_u32_be c₁
    (payload, c₃) ← read_exact payload_len c₂
    read_payload status payload
