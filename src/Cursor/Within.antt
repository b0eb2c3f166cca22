-- ===== src/Cursor/Within.antt =====
-- Steps of a decoder over `std::io::Cursor` that end, and leave no more input than they were given.
use peach_db.Base.{
  ℕ, suc, ◌-◌, ◌≤◌, ◌≡◌, ◌≢◌, arith, refl, false, true, Bool, if◌then◌else◌, ltb, length,
  length-drop,
}
use peach_db.Error.{Outcome, ok, err, panic, diverged, ◌>>=◌}
use peach_db.Cursor.{Cursor, Crates, read_exact}
use peach_db.Cursor.Inputs.{
  left, read_exact_takes, read_uint_le_takes, read_uint_le-ne-diverged, read_exact-ne-diverged,
}

-- A result that is no larger than `n`, an error, or a panic.
abbrev pub Within {ℓ} : {A : Type ℓ} → (A → ℕ) → ℕ → Outcome A → Type 0
Within size n (ok a) = size a ≤ n
Within size n (err e) = Unit
Within size n panic = Unit
Within size n diverged = ⊥

pub Within-of {ℓ} :
    {A : Type ℓ} (size : A → ℕ) (n : ℕ) (m : Outcome A)
    → m ≢ diverged
    → ((a : A) → m ≡ ok a → size a ≤ n)
    → Within size n m
Within-of size n (ok a) ends h = h a refl
Within-of size n (err e) ends h = tt
Within-of size n panic ends h = tt
Within-of size n diverged ends h = ends refl

pub Within-bind {ℓ κ} :
    {A : Type ℓ} {B : Type κ} (size : A → ℕ) (size' : B → ℕ) (n n' : ℕ) (m : Outcome A)
    (f : A → Outcome B)
    → Within size n m
    → ((a : A) → size a ≤ n → Within size' n' (f a))
    → Within size' n' (m >>= f)
Within-bind size size' n n' (ok a) f h k = k a h
Within-bind size size' n n' (err e) f h k = tt
Within-bind size size' n n' panic f h k = tt
Within-bind size size' n n' diverged f h k = h

pub Within-le {ℓ} :
    {A : Type ℓ} (size : A → ℕ) (n n' : ℕ) (m : Outcome A)
    → n ≤ n'
    → Within size n m
    → Within size n' m
Within-le size n n' (ok a) le h = omega (arith, le, h)
Within-le size n n' (err e) le h = tt
Within-le size n n' panic le h = tt
Within-le size n n' diverged le h = h

-- What a read leaves.
abbrev pub behind {ℓ} : {A : Type ℓ} → A × Cursor → ℕ
behind r = left r.1

pub read_exact-Within : (n : ℕ) (c : Cursor) → Within behind (left c - n) (read_exact n c)
read_exact-Within n c =
    Within-of behind (left c - n) (read_exact n c) (read_exact-ne-diverged n c)
      (λ r e. omega (arith, read_exact_takes n c r e))

pub read_uint_le-Within :
    (crates : Crates) (n : ℕ) (c : Cursor) → Within behind (left c - n) (crates.read_uint_le n c)
read_uint_le-Within crates n c =
    Within-of behind (left c - n) (crates.read_uint_le n c) (read_uint_le-ne-diverged crates n c)
      (λ r e. omega (arith, read_uint_le_takes crates n c r e))

-- The test of a loop over an input that is used up.
pub used_up : (c : Cursor) → left c ≤ 0 → ltb c.position (length c.inner) ≡ false
used_up c h = ground (arith, length-drop c.position c.inner)

pub unread : (c : Cursor) → ltb c.position (length c.inner) ≡ true → suc 0 ≤ left c
unread c h = ground (arith, length-drop c.position c.inner)

pub left-le_length : (c : Cursor) → left c ≤ length c.inner
left-le_length c = omega (arith, length-drop c.position c.inner)

pub Within-if {ℓ} :
    {A : Type ℓ} (size : A → ℕ) (n : ℕ) (b : Bool) (x y : Outcome A)
    → Within size n x
    → Within size n y
    → Within size n (if b then x else y)
Within-if size n true x y hx hy = hx
Within-if size n false x y hx hy = hy

-- A step that leaves no more than it is given, behind others.
pub Within-then {ℓ} :
    {A : Type ℓ} (size : A → ℕ) (n : ℕ) (m : Outcome A) (f : A → Outcome A)
    → Within size n m
    → ((a : A) → Within size (size a) (f a))
    → Within size n (m >>= f)
Within-then size n m f h k =
    Within-bind size size n n m f h (λ a le. Within-le size (size a) n (f a) le (k a))

-- A step, and then what ends on all that the step may leave.
pub Within-ends {ℓ κ} :
    {A : Type ℓ} {B : Type κ} (size : A → ℕ) (n : ℕ) (m : Outcome A) (f : A → Outcome B)
    → Within size n m
    → ((a : A) → size a ≤ n → f a ≢ diverged)
    → (m >>= f) ≢ diverged
Within-ends size n (ok a) f h k = k a h
Within-ends size n (err e) f h k = λ p. cc
Within-ends size n panic f h k = λ p. cc
Within-ends size n diverged f h k = λ p. h
