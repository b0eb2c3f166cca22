-- ===== src/Base/Int64.antt =====
-- Rust's `i64`: an integer, and its two's complement in 64 bits.
use Prim.Native.Nat.{ℕ, ◌-◌, ◌%◌, ◌^◌, ◌<◌}
use mathlib.Core.Path.{◌≡◌}
use native.Mathlib.Omega.{arith}
use peach_db.Base.Tests.{ltb, if◌then◌else◌}

-- `negsuc n` is -(n + 1).
pub data ℤ : Type 0 where
  pos : ℕ → ℤ
  negsuc : ℕ → ℤ

-- The integers that an `i64` can hold.
abbrev pub IsI64 : ℤ → Type 0
IsI64 (pos n) = n < 2 ^ 63
IsI64 (negsuc n) = n < 2 ^ 63

unfoldable pub i64_bits : ℤ → ℕ
i64_bits (pos n) = n % 2 ^ 64
i64_bits (negsuc n) = 2 ^ 64 - 1 - n % 2 ^ 64

unfoldable pub i64_from_bits : ℕ → ℤ
i64_from_bits w = if ltb w (2 ^ 63) then pos w else negsuc (2 ^ 64 - 1 - w)

pub i64_bits-lt : (z : ℤ) → i64_bits z < 2 ^ 64
unfolding i64_bits
i64_bits-lt (pos n) = omega arith
i64_bits-lt (negsuc n) = omega arith

pub i64_from_bits-i64_bits : (z : ℤ) → IsI64 z → i64_from_bits (i64_bits z) ≡ z
unfolding i64_bits i64_from_bits
i64_from_bits-i64_bits (pos n) h = ground arith
i64_from_bits-i64_bits (negsuc n) h = ground arith

pub i64_from_bits-IsI64 : (w : ℕ) → w < 2 ^ 64 → IsI64 (i64_from_bits w)
unfolding i64_from_bits
i64_from_bits-IsI64 w h = ground arith
