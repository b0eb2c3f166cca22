-- ===== src/Cli/Arguments.antt =====
-- examples/peachdb-cli.rs: parse_addr, build_request, require_arg and parse_value.
use peach_db.Base.{
  ℕ, zero, suc, true, false, Option, none, some, List, [], ◌∷◌, ◌++◌, if◌then◌else◌,
}
use peach_db.Base.Int64.{ℤ}
use peach_db.Base.Keys.{bytes_eq}
use peach_db.Base.Text.{ascii, parse_i64}
use peach_db.Base.Words.{Bytes}
use peach_db.Dtypes.Key
use peach_db.Dtypes.Key.{Key}
use peach_db.Dtypes.Field.{Field, primitive, integer, float, string, boolean}
use peach_db.Server.Protocol.{Request}

-- A `Result` whose error is a text, or the text of an error, or a panic. `diverged` is as in `Outcome`.
pub data Attempt {ℓ} (A : Type ℓ) : Type ℓ where
  ok : A → Attempt A
  err : Bytes → Attempt A
  panic : Attempt A
  diverged : Attempt A

-- The `?` operator.
infixl 5 ◌>>=◌
abbrev pub ◌>>=◌ {ℓ κ} : {A : Type ℓ} {B : Type κ} → Attempt A → (A → Attempt B) → Attempt B
ok a >>= f = f a
err e >>= f = err e
panic >>= f = panic
diverged >>= f = diverged

abbrev pub addr_flag : Bytes
addr_flag = ascii "--addr"

abbrev pub default_addr : Bytes
default_addr = ascii "127.0.0.1:7878"

abbrev pub usage : Bytes
usage =
    ascii
      "Usage: peachdb-cli [--addr <host:port>] <command> [args]\n\nCommands:\n  ping\n  get  <key>\n  set  <key> <value>\n  del  <key>\n  keys"

unfoldable pub parse_addr : List Bytes → Bytes × List Bytes
parse_addr [] = (default_addr, [])
parse_addr (a ∷ []) = (default_addr, a ∷ [])
parse_addr (a ∷ b ∷ args) = if bytes_eq a addr_flag then (b, args) else (default_addr, a ∷ b ∷ args)

abbrev pub get_elem? : List Bytes → ℕ → Option Bytes
get_elem? [] n = none
get_elem? (a ∷ args) zero = some a
get_elem? (a ∷ args) (suc n) = get_elem? args n

abbrev pub given : Option Bytes → Bytes → Attempt Bytes
given (some a) text = ok a
given none text = err (ascii "usage: " ++ text)

unfoldable pub require_arg : List Bytes → ℕ → Bytes → Attempt Bytes
require_arg args idx text = given (get_elem? args idx) text

-- Reading an `f64` from a text and displaying one are the standard library's.
module _ (parse_f64 : Bytes → Option ℕ) where
  abbrev pub parse_float : Bytes → Option ℕ → Field
  parse_float s (some f) = primitive (float f)
  parse_float s none = primitive (string s)

  abbrev pub parse_number : Bytes → Option ℤ → Field
  parse_number s (some n) = primitive (integer n)
  parse_number s none = parse_float s (parse_f64 s)

  unfoldable pub parse_value : Bytes → Field
  parse_value s =
      if bytes_eq s (ascii "true")
      then primitive (boolean true)
      else if bytes_eq s (ascii "false")
      then primitive (boolean false)
      else parse_number s (parse_i64 s)

  unfoldable pub build_get : List Bytes → Attempt Request
  build_get args = require_arg args 1 (ascii "get <key>") >>= λ key. ok (Request.get (Key.from key))

  unfoldable pub build_del : List Bytes → Attempt Request
  build_del args = require_arg args 1 (ascii "del <key>") >>= λ key. ok (Request.del (Key.from key))

  unfoldable pub build_set : List Bytes → Attempt Request
  build_set args = do
    key ← require_arg args 1 (ascii "set <key> <value>")
    value ← require_arg args 2 (ascii "set <key> <value>")
    ok (Request.set (Key.from key) (parse_value value))

  -- `args[0]` of no arguments is out of range.
  unfoldable pub build_request : List Bytes → Attempt Request
  build_request [] = panic
  build_request (cmd ∷ args) =
      if bytes_eq cmd (ascii "ping")
      then ok Request.ping
      else if bytes_eq cmd (ascii "keys")
      then ok Request.keys
      else if bytes_eq cmd (ascii "get")
      then build_get (cmd ∷ args)
      else if bytes_eq cmd (ascii "del")
      then build_del (cmd ∷ args)
      else if bytes_eq cmd (ascii "set")
      then build_set (cmd ∷ args)
      else err (ascii "unknown command: '" ++ (cmd ++ ascii "'"))
