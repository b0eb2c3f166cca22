-- ===== src/Base/Text.antt =====
-- Text by its bytes, and the numbers of the standard library's `parse::<i64>` and `Display`.
use Prim.Native.Char.{code}
use Prim.Native.Nat.{ℕ, zero, suc, ◌+◌, ◌-◌, ◌*◌, ◌/◌, ◌%◌, ◌^◌, ◌≤◌, ◌<◌}
use Prim.Native.String.{String}
use peach_db.Base.Tests.{ltb, leb, lt→ltb, ◌==◌, if◌then◌else◌, Bool-cases}
use peach_db.Base.Lists.{length, length-append}
use peach_db.Base.Words.{Bytes}
use peach_db.Base.Int64.{ℤ, pos, negsuc, IsI64}
use mathlib.Core.Path.{◌≡◌, refl, ap, ◌∙◌, subst}
use mathlib.Core.Bool.{Bool, true, false, ◌&&◌}
use mathlib.Core.Logic.{inl, inr}
use mathlib.Core.Option.{Option, none, some, some-injective}
use mathlib.Core.List.{[], ◌∷◌, ◌++◌}
use native.Mathlib.Omega.{arith}

-- The bytes of an ASCII text.
abbrev pub ascii : String → Bytes
ascii String.[] = []
ascii (String.◌∷◌ c s) = code c ∷ ascii s

abbrev is_digit : ℕ → Bool
is_digit b = leb b'0' b && leb b b'9'

-- The number that decimal digits spell behind those that spelt `acc`.
unfoldable pub parse_digits : ℕ → Bytes → Option ℕ
parse_digits acc [] = some acc
parse_digits acc (b ∷ bs) =
    let rest = parse_digits (10 * acc + (b - b'0')) bs in if is_digit b then rest else none

-- The digits give the absolute value; an `i64` holds one more below zero than above.
abbrev pub positive : Option ℕ → Option ℤ
positive none = none
positive (some n) = if ltb n (2 ^ 63) then some (pos n) else none

abbrev pub negative : Option ℕ → Option ℤ
negative none = none
negative (some zero) = some (pos 0)
negative (some (suc n)) = if ltb n (2 ^ 63) then some (negsuc n) else none

-- `str::parse::<i64>`: a sign wants a digit behind it.
unfoldable pub parse_i64 : Bytes → Option ℤ
parse_i64 [] = none
parse_i64 (b ∷ []) = if is_digit b then positive (parse_digits 0 (b ∷ [])) else none
parse_i64 (b ∷ c ∷ bs) =
    if b == b'-'
    then negative (parse_digits 0 (c ∷ bs))
    else if b == b'+'
    then positive (parse_digits 0 (c ∷ bs))
    else positive (parse_digits 0 (b ∷ c ∷ bs))

-- Decimal digits, on fuel: the number itself is enough.
unfoldable pub digits : ℕ → ℕ → Bytes
digits zero n = (b'0' + n % 10) ∷ []
digits (suc fuel) n =
    let front = digits fuel (n / 10) in
    if ltb n 10 then (b'0' + n) ∷ [] else front ++ (b'0' + n % 10) ∷ []

unfoldable pub display_nat : ℕ → Bytes
display_nat n = digits n n

unfoldable pub display_i64 : ℤ → Bytes
display_i64 (pos n) = display_nat n
display_i64 (negsuc n) = b'-' ∷ display_nat (suc n)

digit_read :
    (acc d : ℕ)
    → d < 10
    → (if is_digit (b'0' + d) then some (10 * acc + (b'0' + d - b'0')) else none)
      ≡ some (10 * acc + d)
digit_read acc d small = ground arith

parse_digits-append :
    (acc d m : ℕ) (bs : Bytes)
    → d < 10
    → parse_digits acc bs ≡ some m
    → parse_digits acc (bs ++ (b'0' + d) ∷ []) ≡ some (10 * m + d)
unfolding parse_digits
parse_digits-append acc d m [] small h = digit_read acc d small ∙ cc h
parse_digits-append acc d m (b ∷ bs) small h = elim (Bool-cases (is_digit b)) [
  | inl e ↦ rw e (parse_digits-append (10 * acc + (b - b'0')) d m bs small (rw e at h))
  | inr e ↦ cc (rw e at h)
]

parse_digits-digits : (fuel n : ℕ) → n ≤ fuel → parse_digits 0 (digits fuel n) ≡ some n
unfolding parse_digits digits
parse_digits-digits zero n enough = digit_read 0 (n % 10) (omega arith) ∙ ap some (omega arith)
parse_digits-digits (suc fuel) n enough = elim (Bool-cases (ltb n 10)) [
  | inl e ↦ rw e (digit_read 0 n (ground arith) ∙ ap some (omega arith))
  | inr e ↦ rw e (
      parse_digits-append 0 (n % 10) (n / 10) (digits fuel (n / 10)) (omega arith)
        (parse_digits-digits fuel (n / 10) (ground arith))
      ∙ ap some (omega arith))
]

digits_more : (fuel n : ℕ) → 0 < length (digits fuel n)
unfolding digits
digits_more zero n = omega arith
digits_more (suc fuel) n = elim (Bool-cases (ltb n 10)) [
  | inl e ↦ rw e (omega arith)
  | inr e ↦ rw e (omega (arith, length-append (digits fuel (n / 10)) ((b'0' + n % 10) ∷ [])))
]

parse_i64_unsigned :
    (n : ℕ) (bs : Bytes)
    → 0 < length bs
    → parse_digits 0 bs ≡ some n
    → parse_i64 bs ≡ positive (some n)
unfolding parse_i64 parse_digits
parse_i64_unsigned n [] more h = absurd (omega arith)
parse_i64_unsigned n (b ∷ []) more h = elim (Bool-cases (is_digit b)) [
  | inl e ↦ rw e (ap positive (rw e at h))
  | inr e ↦ cc (rw e at h)
]
parse_i64_unsigned n (b ∷ c ∷ bs) more h = elim (Bool-cases (is_digit b)) [
  | inl e ↦ rw (no_minus b e, no_plus b e, e) (ap positive (rw e at h))
  | inr e ↦ cc (rw e at h)
]
  where
    no_minus : (b : ℕ) → is_digit b ≡ true → (b == b'-') ≡ false
    no_minus b e = ground arith

    no_plus : (b : ℕ) → is_digit b ≡ true → (b == b'+') ≡ false
    no_plus b e = ground arith

parse_i64_minus :
    (bs : Bytes) → 0 < length bs → parse_i64 (b'-' ∷ bs) ≡ negative (parse_digits 0 bs)
unfolding parse_i64
parse_i64_minus [] more = absurd (omega arith)
parse_i64_minus (b ∷ bs) more = refl

-- An `i64` is parsed back from the text that it is displayed as.
pub parse_i64-display_i64 : (z : ℤ) → IsI64 z → parse_i64 (display_i64 z) ≡ some z
unfolding display_i64 display_nat
parse_i64-display_i64 (pos n) fits =
    parse_i64_unsigned n (digits n n) (digits_more n n) (parse_digits-digits n n (omega arith))
    ∙ rw (lt→ltb n (2 ^ 63) fits)
parse_i64-display_i64 (negsuc n) fits =
    parse_i64_minus (digits (suc n) (suc n)) (digits_more (suc n) (suc n))
    ∙ rw (parse_digits-digits (suc n) (suc n) (omega arith), lt→ltb n (2 ^ 63) fits)

positive-IsI64 : (o : Option ℕ) (z : ℤ) → positive o ≡ some z → IsI64 z
positive-IsI64 none z h = cc
positive-IsI64 (some n) z h = elim (Bool-cases (ltb n (2 ^ 63))) [
  | inl e ↦
      let same : some (pos n) ≡ some z = rw e at h in
      subst IsI64 (some-injective _ _ same) (ground arith)
  | inr e ↦ cc (rw e at h)
]

negative-IsI64 : (o : Option ℕ) (z : ℤ) → negative o ≡ some z → IsI64 z
negative-IsI64 none z h = cc
negative-IsI64 (some zero) z h = subst IsI64 (some-injective _ _ h) (omega arith)
negative-IsI64 (some (suc n)) z h = elim (Bool-cases (ltb n (2 ^ 63))) [
  | inl e ↦
      let same : some (negsuc n) ≡ some z = rw e at h in
      subst IsI64 (some-injective _ _ same) (ground arith)
  | inr e ↦ cc (rw e at h)
]

-- What is parsed is an `i64`.
pub parse_i64-IsI64 : (bs : Bytes) (z : ℤ) → parse_i64 bs ≡ some z → IsI64 z
unfolding parse_i64
parse_i64-IsI64 [] z h = cc
parse_i64-IsI64 (b ∷ []) z h = elim (Bool-cases (is_digit b)) [
  | inl e ↦ positive-IsI64 (parse_digits 0 (b ∷ [])) z (rw e at h)
  | inr e ↦ cc (rw e at h)
]
parse_i64-IsI64 (b ∷ c ∷ bs) z h = elim (Bool-cases (b == b'-')) [
  | inl e ↦ negative-IsI64 (parse_digits 0 (c ∷ bs)) z (rw e at h)
  | inr e ↦ elim (Bool-cases (b == b'+')) [
    | inl p ↦ positive-IsI64 (parse_digits 0 (c ∷ bs)) z (rw (e, p) at h)
    | inr p ↦ positive-IsI64 (parse_digits 0 (b ∷ c ∷ bs)) z (rw (e, p) at h)
  ]
]
