-- ===== src/Db/FileHandler/Laws.antt =====
-- What a write does to the content of a file.
use peach_db.Base.{
  ℕ, ◌+◌, ◌-◌, ◌≡◌, [], drop-nil, ◌++◌, arith, length, length-append, take_here, drop_here,
}
use peach_db.Base.Words.{Bytes}
use peach_db.Db.FileHandler.{write_bytes, resize}
use mathlib.Core.List.{append_assoc, append-nil}

-- A write inside a file replaces as many bytes.
pub write_bytes-inside :
    (pos : ℕ) (a b c d : Bytes)
    → length a ≡ pos
    → length b ≡ length c
    → write_bytes pos b (a ++ (c ++ d)) ≡ a ++ (b ++ d)
write_bytes-inside pos a b c d at_pos same = rw (
  take_here pos a (c ++ d) at_pos,
  no_gap,
  ← append_assoc a c d,
  drop_here (pos + length b) (a ++ c) d (omega (arith, length-append a c)),
)
  where
    no_gap : pos - length (a ++ (c ++ d)) ≡ 0
    no_gap = omega (arith, length-append a (c ++ d))

zero_sub : (n : ℕ) → 0 - n ≡ 0
zero_sub n = omega arith

-- A file that is cut to nothing, and a write into an empty file.
pub resize-zero : (file : Bytes) → resize 0 file ≡ []
resize-zero file = rw (zero_sub (length file))

pub write_bytes-nil : (bytes : Bytes) → write_bytes 0 bytes [] ≡ bytes
write_bytes-nil bytes = rw (zero_sub 0, drop-nil, append-nil bytes)
