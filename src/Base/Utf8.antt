-- ===== src/Base/Utf8.antt =====
-- UTF-8 as `String::from_utf8` and `String::from_utf8_lossy` read it (table 3-7 of Unicode).
-- A Rust `String` is modelled by its bytes; `is_utf8` holds of the bytes of every `String`.
use Prim.Native.Nat.{ℕ, zero, suc}
use mathlib.Core.Bool.{Bool, true, false, ◌&&◌}
use mathlib.Core.List.{[], ◌∷◌, ◌++◌}
use peach_db.Base.Tests.{leb, ◌==◌, if◌then◌else◌}
use peach_db.Base.Lists.{length, take, drop}
use peach_db.Base.Words.{Bytes}

-- One step over the input: a whole character of `n` bytes, or `n` bytes to be replaced.
pub data Chunk : Type 0 where
  char bad : ℕ → Chunk

abbrev between : ℕ → ℕ → ℕ → Bool
between lo hi b = leb lo b && leb b hi

-- The tail of a character: `left` more continuation bytes, after `seen` bytes.
tail_bytes : ℕ → ℕ → Bytes → Chunk
tail_bytes zero seen bs = char seen
tail_bytes (suc left) seen [] = bad seen
tail_bytes (suc left) seen (b ∷ bs) =
    let more = tail_bytes left (suc seen) bs in if between 0x80 0xbf b then more else bad seen

-- The second byte has a range of its own, which depends on the first.
second_byte : ℕ → ℕ → ℕ → Bytes → Chunk
second_byte left lo hi [] = bad 1
second_byte left lo hi (b ∷ bs) = if between lo hi b then tail_bytes left 2 bs else bad 1

pub next_chunk : ℕ → Bytes → Chunk
unfolding second_byte tail_bytes
next_chunk b bs =
    if leb b 0x7f
    then char 1
    else if between 0xc2 0xdf b
    then second_byte 0 0x80 0xbf bs
    else if b == 0xe0
    then second_byte 1 0xa0 0xbf bs
    else if b == 0xed
    then second_byte 1 0x80 0x9f bs
    else if between 0xe1 0xef b
    then second_byte 1 0x80 0xbf bs
    else if b == 0xf0
    then second_byte 2 0x90 0xbf bs
    else if between 0xf1 0xf3 b
    then second_byte 2 0x80 0xbf bs
    else if b == 0xf4
    then second_byte 2 0x80 0x8f bs
    else bad 1

-- On fuel; each round takes a byte at least, so the input's length is enough.
utf8_loop : ℕ → Bytes → Bool
utf8_loop fuel [] = true
utf8_loop zero (b ∷ bs) = false
utf8_loop (suc fuel) (b ∷ bs) = elim (next_chunk b bs) [
  | char n ↦ utf8_loop fuel (drop n (b ∷ bs))
  | bad n ↦ false
]

unfoldable pub is_utf8 : Bytes → Bool
unfolding utf8_loop next_chunk
is_utf8 bs = utf8_loop (length bs) bs

-- Each ill-formed part becomes U+FFFD.
lossy_loop : ℕ → Bytes → Bytes
lossy_loop fuel [] = []
lossy_loop zero (b ∷ bs) = []
lossy_loop (suc fuel) (b ∷ bs) = elim (next_chunk b bs) [
  | char n ↦ take n (b ∷ bs) ++ lossy_loop fuel (drop n (b ∷ bs))
  | bad n ↦ 0xef ∷ 0xbf ∷ 0xbd ∷ lossy_loop fuel (drop n (b ∷ bs))
]

unfoldable pub from_utf8_lossy : Bytes → Bytes
unfolding lossy_loop next_chunk
from_utf8_lossy bs = lossy_loop (length bs) bs
