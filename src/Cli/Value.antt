-- ===== src/Cli/Value.antt =====
-- `parse_value` and `display_field` of examples/peachdb-cli.rs.
use peach_db.Base.{
  ℕ, ◌+◌, ◌≤◌, ◌<◌, ◌^◌, ◌≡◌, ◌++◌, refl, ap, true, false, Option, none, some, arith, length,
  length-append, inl, inr, Bool-cases,
}
use peach_db.Base.Int64.{ℤ, IsI64, i64_bits}
use peach_db.Base.Keys.{bytes_eq, bytes_eq→eq}
use peach_db.Base.Text.{
  ascii, parse_digits, parse_i64, parse_i64-display_i64, parse_i64-IsI64, display_i64,
}
use peach_db.Base.Utf8.{is_utf8}
use peach_db.Base.Words.{Bytes, as_u32, to_le_bytes, length-to_le_bytes}
use peach_db.Dtypes.Field.{primitive, integer}
use peach_db.Dtypes.Codec.{bytes_from_field, bytes_from_primitive}
use peach_db.Dtypes.Codec.Laws.{IsField}
use peach_db.Cli.Display.{display_field, display_primitive}
use peach_db.Cli.Arguments.{parse_value, parse_number, parse_float}

no_word :
    (word s : Bytes) (z : ℤ)
    → parse_i64 word ≡ none
    → parse_i64 s ≡ some z
    → bytes_eq s word ≡ false
no_word word s z h p = elim (Bool-cases (bytes_eq s word)) [
  | inl e ↦ cc (ap parse_i64 (bytes_eq→eq s word e), h, p)
  | inr e ↦ e
]

parse_i64-true : parse_i64 (ascii "true") ≡ none
unfolding parse_i64 parse_digits
parse_i64-true = refl

parse_i64-false : parse_i64 (ascii "false") ≡ none
unfolding parse_i64 parse_digits
parse_i64-false = refl

module _ (parse_f64 : Bytes → Option ℕ) where
  -- An integer of 64 bits, typed in its decimal digits, behind a minus sign if it is negative, is stored
  -- as that integer, and the client displays what is stored as these digits inside `Integer(` and `)`.
  pub parse_value-display_i64 :
      (display_f64 : ℕ → Bytes) (z : ℤ)
      → IsI64 z
      → (parse_value parse_f64 (display_i64 z) ≡ primitive (integer z))
        × (display_field display_f64 (parse_value parse_f64 (display_i64 z))
            ≡ ascii "Integer(" ++ (display_i64 z ++ ascii ")"))
  unfolding parse_value display_field display_primitive
  parse_value-display_i64 display_f64 z fits =
      let read : parse_i64 (display_i64 z) ≡ some z = parse_i64-display_i64 z fits in
      rw
        (
          no_word (ascii "true") (display_i64 z) z parse_i64-true read,
          no_word (ascii "false") (display_i64 z) z parse_i64-false read,
          read,
        )
        (refl, refl)

  module _ (f64_fits : (s : Bytes) (f : ℕ) → parse_f64 s ≡ some f → f < 2 ^ 64) where
    parse_float-IsField :
        (s : Bytes) (o : Option ℕ)
        → parse_f64 s ≡ o
        → is_utf8 s ≡ true
        → length s < 2 ^ 32
        → IsField (parse_float parse_f64 s o)
    parse_float-IsField s none at_s text small = (text, small)
    parse_float-IsField s (some f) at_s text small = f64_fits s f at_s

    parse_number-IsField :
        (s : Bytes) (o : Option ℤ)
        → parse_i64 s ≡ o
        → is_utf8 s ≡ true
        → length s < 2 ^ 32
        → IsField (parse_number parse_f64 s o)
    parse_number-IsField s none at_s text small =
        parse_float-IsField s (parse_f64 s) refl text small
    parse_number-IsField s (some z) at_s text small = parse_i64-IsI64 s z at_s

    pub parse_value-IsField :
        (s : Bytes) → is_utf8 s ≡ true → length s < 2 ^ 32 → IsField (parse_value parse_f64 s)
    unfolding parse_value
    parse_value-IsField s text small = elim (Bool-cases (bytes_eq s (ascii "true"))) [
      | inl e ↦ rw e tt
      | inr e ↦ elim (Bool-cases (bytes_eq s (ascii "false"))) [
        | inl p ↦ rw (e, p) tt
        | inr p ↦ rw (e, p) (parse_number-IsField s (parse_i64 s) refl text small)
      ]
    ]

  length-parse_float :
      (s : Bytes) (o : Option ℕ)
      → length (bytes_from_field (parse_float parse_f64 s o)) ≤ 9 + length s
  unfolding bytes_from_field bytes_from_primitive
  length-parse_float s none = omega (
    arith,
    length-append (to_le_bytes 4 (as_u32 (length s))) s,
    length-to_le_bytes 4 (as_u32 (length s)),
  )
  length-parse_float s (some f) = omega (arith, length-to_le_bytes 8 f)

  length-parse_number :
      (s : Bytes) (o : Option ℤ)
      → length (bytes_from_field (parse_number parse_f64 s o)) ≤ 9 + length s
  length-parse_number s none = length-parse_float s (parse_f64 s)
  length-parse_number s (some z) =
      unfold bytes_from_field bytes_from_primitive in
      omega (arith, length-to_le_bytes 8 (i64_bits z))

  -- A value takes no more bytes than its text, and nine for the type byte and a number.
  pub length-parse_value :
      (s : Bytes) → length (bytes_from_field (parse_value parse_f64 s)) ≤ 9 + length s
  unfolding parse_value
  length-parse_value s = elim (Bool-cases (bytes_eq s (ascii "true"))) [
    | inl e ↦ rw e (unfold bytes_from_field bytes_from_primitive in omega arith)
    | inr e ↦ elim (Bool-cases (bytes_eq s (ascii "false"))) [
      | inl p ↦ rw (e, p) (unfold bytes_from_field bytes_from_primitive in omega arith)
      | inr p ↦ rw (e, p) (length-parse_number s (parse_i64 s))
    ]
  ]
