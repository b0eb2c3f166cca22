-- ===== src/Error.antt =====
-- src/error.rs: the crate's error type, and the outcome of a call.
-- A call returns `Ok` or `Err`, or it panics (an index or a slice out of range). `diverged` is no
-- outcome of the program: it says that the fuel of a modelled loop ran out.
use peach_db.Base.{ℕ, ◌≡◌, refl, subst, ◌≢◌, Bool, true, false}
use Prim.Native.String.{String}

-- `std::io::ErrorKind`, the kinds that the code looks at.
pub data IoErrorKind : Type 0 where
  unexpected_eof connection_reset interrupted timed_out other : IoErrorKind

-- Texts that `format!` builds from another error are cut to their fixed part.
pub data PeachDbError : Type 0 where
  io : IoErrorKind → PeachDbError
  invalid_magic_bytes : PeachDbError
  invalid_index_entry : PeachDbError
  unknown_dtype : ℕ → PeachDbError
  corrupted_record : String → PeachDbError
  invalid_finish_call : PeachDbError
  buffer_too_short : PeachDbError
  empty_buffer : PeachDbError
  incomplete_entry : String → PeachDbError
  replay_failed : String → PeachDbError
  unknown_command : ℕ → PeachDbError
  invalid_request_format : String → PeachDbError
  payload_too_large : ℕ → ℕ → PeachDbError
  db_name_to_long : PeachDbError
  key_not_found : PeachDbError
  type_mismatch : String → String → String → PeachDbError
  invalid_wal_entry : PeachDbError

is_transient : IoErrorKind → Bool
is_transient interrupted = true
is_transient timed_out = true
is_transient _ = false

pub is_retryable : PeachDbError → Bool
unfolding is_transient
is_retryable (io e) = is_transient e
is_retryable _ = false

pub is_protocol_error : PeachDbError → Bool
is_protocol_error (unknown_command b) = true
is_protocol_error (invalid_request_format r) = true
is_protocol_error (payload_too_large s m) = true
is_protocol_error (unknown_dtype b) = true
is_protocol_error _ = false

pub data Outcome {ℓ} (A : Type ℓ) : Type ℓ where
  ok : A → Outcome A
  err : PeachDbError → Outcome A
  panic : Outcome A
  diverged : Outcome A

-- The `?` operator.
infixl 5 ◌>>=◌
abbrev pub ◌>>=◌ {ℓ κ} : {A : Type ℓ} {B : Type κ} → Outcome A → (A → Outcome B) → Outcome B
ok a >>= f = f a
err e >>= f = err e
panic >>= f = panic
diverged >>= f = diverged

-- A chain that succeeds has a first step that succeeds.
pub >>=-eq-ok {ℓ κ} :
    {B : Type κ} {A : Type ℓ} (first : Outcome A) (next : A → Outcome B) {b : B}
    → (first >>= next) ≡ ok b
    → (a : A) × (first ≡ ok a) × (next a ≡ ok b)
>>=-eq-ok panic next h = cc
>>=-eq-ok diverged next h = cc
>>=-eq-ok (err e) next h = cc
>>=-eq-ok (ok a) next h = (a, refl, h)

-- Equal results have the same properties.
pub along_ok {ℓ κ} :
    {A : Type ℓ} (P : A → Type κ) {a b : A} → ◌≡◌ {A = Outcome A} (ok a) (ok b) → P a → P b
along_ok P h p = subst P (cc h) p

pub >>=-ne-diverged {ℓ κ} :
    {A : Type ℓ} {B : Type κ} (m : Outcome A) (f : A → Outcome B)
    → m ≢ diverged
    → ((a : A) → m ≡ ok a → f a ≢ diverged)
    → (m >>= f) ≢ diverged
>>=-ne-diverged (ok a) f h k = k a refl
>>=-ne-diverged (err e) f h k = λ p. cc
>>=-ne-diverged panic f h k = λ p. cc
>>=-ne-diverged diverged f h k = λ p. h refl
