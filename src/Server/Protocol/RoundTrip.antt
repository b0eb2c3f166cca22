-- ===== src/Server/Protocol/RoundTrip.antt =====
-- The requests of src/server/protocol.rs, encoded and decoded.
use peach_db.Base.{◌≡◌, refl, sym, ◌∙◌, [], ◌∷◌, ◌++◌, length}
use peach_db.Base.Words.{Bytes, as_u16, as_u32, to_be_bytes}
use peach_db.Error.{ok}
use peach_db.Cursor
use peach_db.Cursor.{Cursor, Crates, remaining, advance, read_exact}
use peach_db.Cursor.Laws.{ReadsBytes, ReadsBytes-be, read_u8_here}
use peach_db.Dtypes.Key
use peach_db.Dtypes.Key.{Key}
use peach_db.Dtypes.Field.{Field}
use peach_db.Dtypes.Codec.{bytes_from_field}
use peach_db.Dtypes.Codec.RoundTrip.{field_from_bytes-bytes_from_field}
use peach_db.Db.WalCodec.RoundTrip.{IsKey, IsStored}
use peach_db.Server.Protocol.{
  Command, Request, command_byte, command_from, encode_request, ProtocolEncoder, reset,
  encoder_bytes, read_key, read_field, read_arguments, read_command, decode_request,
}
use mathlib.Core.List.{append_assoc, append-nil}
use native.Mathlib.Nat.{mod-eq_of_lt}

-- A request whose key fits its two bytes and whose value fits its four.
abbrev pub IsRequest : Request → Type 0
IsRequest Request.ping = Unit
IsRequest Request.keys = Unit
IsRequest (Request.get key) = IsKey key
IsRequest (Request.del key) = IsKey key
IsRequest (Request.set key field) = IsKey key × IsStored field

abbrev pub request_key_bytes : Key → Bytes
request_key_bytes key = to_be_bytes 2 (as_u16 (Key.len key)) ++ key.bytes

abbrev request_field_bytes : Field → Bytes
request_field_bytes field =
    to_be_bytes 4 (as_u32 (length (bytes_from_field field))) ++ bytes_from_field field

module _ (crates : Crates) where
  reads_key :
      (c : Cursor) (key : Key) (rest : Bytes)
      → IsKey key
      → remaining c ≡ request_key_bytes key ++ rest
      → ReadsBytes crates.read_uint_be 2 c key.bytes rest
  reads_key c key rest short here =
      ReadsBytes-be crates 2 c key.bytes rest short
        (here ∙ append_assoc _ key.bytes rest ∙ rw (mod-eq_of_lt short))

  reads_field :
      (c : Cursor) (field : Field) (rest : Bytes)
      → IsStored field
      → remaining c ≡ request_field_bytes field ++ rest
      → ReadsBytes crates.read_uint_be 4 c (bytes_from_field field) rest
  reads_field c field rest (valid, small) here =
      ReadsBytes-be crates 4 c (bytes_from_field field) rest small
        (here ∙ append_assoc _ (bytes_from_field field) rest ∙ rw (mod-eq_of_lt small))

  pub read_key_here :
      (c : Cursor) (key : Key) (rest : Bytes)
      → IsKey key
      → remaining c ≡ request_key_bytes key ++ rest
      → (c' : Cursor) × (read_key crates c ≡ ok (key, c')) × (remaining c' ≡ rest)
  unfolding read_key
  read_key_here c key rest short here = (k.after, rw (k.size, k.content), k.left)
    where
      k : ReadsBytes crates.read_uint_be 2 c key.bytes rest
      k = reads_key c key rest short here

  read_field_here :
      (c : Cursor) (field : Field) (rest : Bytes)
      → IsStored field
      → remaining c ≡ request_field_bytes field ++ rest
      → (c' : Cursor) × (read_field crates c ≡ ok (field, c')) × (remaining c' ≡ rest)
  unfolding read_field
  read_field_here c field rest stored here =
      (k.after, rw (k.size, k.content, field_from_bytes-bytes_from_field field stored.0), k.left)
    where
      k : ReadsBytes crates.read_uint_be 4 c (bytes_from_field field) rest
      k = reads_field c field rest stored here

  -- The cursor behind the version and the command.
  abbrev pub behind : Command → Bytes → Cursor
  behind cmd rest = advance 1 (advance 1 (Cursor.new (0x01 ∷ command_byte cmd ∷ rest)))

  command_from-command_byte : (cmd : Command) → command_from (command_byte cmd) ≡ ok cmd
  unfolding command_from command_byte
  command_from-command_byte Command.ping = refl
  command_from-command_byte Command.get = refl
  command_from-command_byte Command.set = refl
  command_from-command_byte Command.del = refl
  command_from-command_byte Command.keys = refl

  pub decode_request-arguments :
      (cmd : Command) (rest : Bytes)
      → decode_request crates (0x01 ∷ command_byte cmd ∷ rest)
        ≡ read_arguments crates cmd (behind cmd rest)
  unfolding decode_request read_command
  decode_request-arguments cmd rest = rw (
    read_u8_here crates (Cursor.new (0x01 ∷ command_byte cmd ∷ rest)) 1 _ refl,
    read_u8_here crates (advance 1 (Cursor.new (0x01 ∷ command_byte cmd ∷ rest))) (command_byte cmd)
        _ refl,
    command_from-command_byte cmd,
  )

  -- A request whose key is shorter than 2 ^ 16 bytes and whose value is well formed and shorter
  -- than 2 ^ 32 bytes is decoded as it was encoded, by an encoder that is new or that was reset.
  pub decode_request-encode_request :
      (used : ProtocolEncoder) (r : Request)
      → IsRequest r
      → decode_request crates (encoder_bytes (encode_request r (reset used))) ≡ ok r
  unfolding encode_request read_arguments
  decode_request-encode_request used Request.ping h = decode_request-arguments Command.ping []
  decode_request-encode_request used Request.keys h = decode_request-arguments Command.keys []
  decode_request-encode_request used (Request.get key) short =
      let (c, e, left) =
        read_key_here (behind Command.get (request_key_bytes key)) key [] short
          (sym (append-nil _)) in
      rw (decode_request-arguments Command.get (request_key_bytes key), e)
  decode_request-encode_request used (Request.del key) short =
      let (c, e, left) =
        read_key_here (behind Command.del (request_key_bytes key)) key [] short
          (sym (append-nil _)) in
      rw (decode_request-arguments Command.del (request_key_bytes key), e)
  decode_request-encode_request used (Request.set key field) (short, stored) =
      let rest = request_key_bytes key ++ request_field_bytes field in
      let (c, e, left) =
        read_key_here (behind Command.set rest) key (request_field_bytes field) short refl in
      let (c', e', left') = read_field_here c field [] stored (left ∙ sym (append-nil _)) in
      rw (
        append_assoc (request_key_bytes key)
            (to_be_bytes 4 (as_u32 (length (bytes_from_field field)))) (bytes_from_field field),
        decode_request-arguments Command.set rest,
        e,
        e',
      )
