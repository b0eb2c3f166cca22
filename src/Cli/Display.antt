-- ===== src/Cli/Display.antt =====
-- examples/peachdb-cli.rs: print_response and display_field.
use peach_db.Base.{ℕ, Bool, true, false, none, some, List, [], ◌∷◌, ◌++◌, length}
use peach_db.Base.Text.{ascii, display_nat, display_i64}
use peach_db.Base.Utf8.{from_utf8_lossy}
use peach_db.Base.Words.{Bytes}
use peach_db.Dtypes.Dtype.{Dtype}
use peach_db.Dtypes.Key.{Key}
use peach_db.Dtypes.Field.{Field, Primitive, primitive, raw, array, integer, float, string, boolean}
use peach_db.Server.Protocol.{Response, ok_response}

-- What the program prints, and its exit code.
pub record Output : Type 0 where
  pub stdout : Bytes
  pub stderr : Bytes
  pub code : ℕ

abbrev pub println : Bytes → Output
println text = record { stdout = text ++ ascii "\n"; stderr = []; code = 0 }

abbrev pub fail : Bytes → Output
fail text = record { stdout = []; stderr = text ++ ascii "\n"; code = 1 }

-- A panic ends the program with code 101; its message is left out.
abbrev pub panicked : Output
panicked = record { stdout = []; stderr = []; code = 101 }

-- The derived `Debug`.
unfoldable pub debug_dtype : Dtype → Bytes
debug_dtype Dtype.raw = ascii "Raw"
debug_dtype Dtype.integer = ascii "Integer"
debug_dtype Dtype.float = ascii "Float"
debug_dtype Dtype.string = ascii "String"
debug_dtype Dtype.boolean = ascii "Boolean"
debug_dtype (Dtype.array of) = ascii "Array(" ++ (display_nat of ++ ascii ")")

abbrev pub display_bool : Bool → Bytes
display_bool true = ascii "true"
display_bool false = ascii "false"

module _ (display_f64 : ℕ → Bytes) where
  unfoldable pub display_primitive : Primitive → Bytes
  display_primitive (integer n) = ascii "Integer(" ++ (display_i64 n ++ ascii ")")
  display_primitive (float f) = ascii "Float(" ++ (display_f64 f ++ ascii ")")
  display_primitive (string s) = ascii "String(\"" ++ (s ++ ascii "\")")
  display_primitive (boolean b) = ascii "Boolean(" ++ (display_bool b ++ ascii ")")

  unfoldable pub display_field : Field → Bytes
  display_field (primitive p) = display_primitive p
  display_field (raw b) = ascii "Raw(<" ++ (display_nat (length b) ++ ascii " bytes>)")
  display_field (array dtype arr) =
      ascii "Array("
      ++ (debug_dtype dtype ++ (ascii ", " ++ (display_nat (length arr) ++ ascii " elements)")))

  abbrev pub key_lines : List Key → Bytes
  key_lines [] = []
  key_lines (key ∷ ks) = from_utf8_lossy key.bytes ++ (ascii "\n" ++ key_lines ks)

  unfoldable pub print_response : Response → Output
  print_response (ok_response none) = println (ascii "OK")
  print_response (ok_response (some field)) = println (display_field field)
  print_response Response.not_found = println (ascii "NOT FOUND")
  print_response Response.type_error = println (ascii "TYPE ERROR")
  print_response Response.invalid_request = fail (ascii "error: invalid request")
  print_response (Response.server_error msg) = fail (ascii "server error: " ++ msg)
  print_response (Response.keys []) = println (ascii "(empty)")
  print_response (Response.keys (key ∷ ks)) = record {
    stdout = key_lines (key ∷ ks);
    stderr = [];
    code = 0;
  }
