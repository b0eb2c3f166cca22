-- ===== src/Server/Protocol/Inputs.antt =====
-- `decode_request` of src/server/protocol.rs on messages that no encoder makes.
use peach_db.Base.{◌+◌, ◌≤◌, ◌<◌, ◌^◌, ◌≡◌, refl, ◌∙◌, [], ◌∷◌, ◌++◌, length, take}
use peach_db.Base.Words.{Bytes, from_le_bytes, to_be_bytes}
use peach_db.Error.{panic}
use peach_db.Cursor.{Crates}
use peach_db.Cursor.Laws.{ReadsBytes-be}
use peach_db.Dtypes.Key.{Key}
use peach_db.Dtypes.Codec.Inputs.{field_from_bytes_panics}
use peach_db.Db.WalCodec.RoundTrip.{IsKey}
use peach_db.Server.Protocol.{Command, read_arguments, read_field, read_key, decode_request}
use peach_db.Server.Protocol.RoundTrip.{
  request_key_bytes, read_key_here, behind, decode_request-arguments,
}
use mathlib.Core.List.{append-nil}

-- A `Set` of a key whose payload is the type byte of a string and `buf`.
abbrev pub string_request : Key → Bytes → Bytes
string_request key buf =
    0x01 ∷ 0x03 ∷ (request_key_bytes key ++ (to_be_bytes 4 (length (0x03 ∷ buf)) ++ 0x03 ∷ buf))

module _ (crates : Crates) (key : Key) (buf : Bytes) where
  -- A `Set`, of a key shorter than 2 ^ 16 bytes, whose payload, shorter than 2 ^ 32 bytes, is a string that announces more bytes than the payload has makes the
  -- decoder panic instead of returning an error.
  pub decode_request_panics :
      IsKey key
      → length (0x03 ∷ buf) < 2 ^ 32
      → 4 ≤ length buf
      → length buf < 4 + from_le_bytes (take 4 buf)
      → decode_request crates (string_request key buf) ≡ panic
  unfolding read_arguments read_field peach_db.Server.Protocol.command_byte
  decode_request_panics short small header cut =
      let payload = to_be_bytes 4 (length (0x03 ∷ buf)) ++ 0x03 ∷ buf in
      let rest = request_key_bytes key ++ payload in
      let (c, e, left) =
        read_key_here crates (behind crates Command.set rest) key payload short refl in
      let p = ReadsBytes-be crates 4 c (0x03 ∷ buf) [] small (left ∙ rw (append-nil buf)) in
      rw (
        decode_request-arguments crates Command.set rest,
        e,
        p.size,
        p.content,
        field_from_bytes_panics buf header cut,
      )
