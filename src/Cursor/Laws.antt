-- ===== src/Cursor/Laws.antt =====
-- How a cursor moves over an input of known shape, and over any input.
use peach_db.Base.{
  ℕ, ◌<◌, ◌^◌, ◌≡◌, ap, ◌++◌, arith, true, false, [], ◌∷◌, ltb, lt→ltb, le→ltb, le→leb, length,
  length-append, take-append, drop-append, drop-add, length-drop,
}
use peach_db.Base.Words.{
  Bytes, from_le_bytes, to_le_bytes, to_be_bytes, length-to_le_bytes, length-to_be_bytes,
  from_le_bytes-to_le_bytes, from_be_bytes-to_be_bytes,
}
use peach_db.Error.{Outcome, ok}
use peach_db.Cursor.{Cursor, Crates, remaining, advance, read_exact}

module _ (c : Cursor) (xs ys : Bytes) (here : remaining c ≡ xs ++ ys) where
  -- Reading exactly the bytes that stand next.
  pub read_exact-append : read_exact (length xs) c ≡ ok (xs, advance (length xs) c)
  unfolding read_exact
  read_exact-append = rw (
    here,
    take-append,
    le→leb (length xs) (length (xs ++ ys)) (omega (arith, length-append xs ys)),
  )

  pub remaining-advance : remaining (advance (length xs) c) ≡ ys
  remaining-advance = rw (drop-add, here, drop-append)

-- The same, at a length that is known by an equation.
pub read_exact_here :
    (c : Cursor) (n : ℕ) (xs ys : Bytes)
    → length xs ≡ n
    → remaining c ≡ xs ++ ys
    → read_exact n c ≡ ok (xs, advance n c)
read_exact_here c n xs ys e here = rw (← e) (read_exact-append c xs ys here)

pub remaining_next :
    (c : Cursor) (n : ℕ) (xs ys : Bytes)
    → length xs ≡ n
    → remaining c ≡ xs ++ ys
    → remaining (advance n c) ≡ ys
remaining_next c n xs ys e here = rw (← e) (remaining-advance c xs ys here)

-- Reading an integer that was written with the same width and byte order.
module _ (k : Crates) (c : Cursor) (w n : ℕ) (ys : Bytes) (fits : n < 256 ^ w) where
  pub read_uint_le-to_le_bytes :
      remaining c ≡ to_le_bytes w n ++ ys → k.read_uint_le w c ≡ ok (n, advance w c)
  read_uint_le-to_le_bytes here = rw (
    k.read_uint_le_lem,
    read_exact_here c w (to_le_bytes w n) ys (length-to_le_bytes w n) here,
    from_le_bytes-to_le_bytes w n fits,
  )

  pub read_uint_be-to_be_bytes :
      remaining c ≡ to_be_bytes w n ++ ys → k.read_uint_be w c ≡ ok (n, advance w c)
  read_uint_be-to_be_bytes here = rw (
    k.read_uint_be_lem,
    read_exact_here c w (to_be_bytes w n) ys (length-to_be_bytes w n) here,
    from_be_bytes-to_be_bytes w n fits,
  )

-- A length, then as many bytes: what stands before the cursor, and where the cursor is then.
pub record ReadsBytes (read_uint : ℕ → Cursor → Outcome (ℕ × Cursor)) (w : ℕ) (c : Cursor)
    (xs ys : Bytes) : Type 0 where
  pub after : Cursor
  pub size : read_uint w c ≡ ok (length xs, advance w c)
  pub content : read_exact (length xs) (advance w c) ≡ ok (xs, after)
  pub left : remaining after ≡ ys

module _ (k : Crates) (w : ℕ) (c : Cursor) (xs ys : Bytes) (short : length xs < 256 ^ w) where
  pub ReadsBytes-le :
      remaining c ≡ to_le_bytes w (length xs) ++ (xs ++ ys) → ReadsBytes k.read_uint_le w c xs ys
  ReadsBytes-le here = record {
    after = advance (length xs) (advance w c);
    size = read_uint_le-to_le_bytes k c w (length xs) (xs ++ ys) short here;
    content = read_exact-append (advance w c) xs ys there;
    left = remaining-advance (advance w c) xs ys there;
  }
    where
      there : remaining (advance w c) ≡ xs ++ ys
      there =
          remaining_next c w (to_le_bytes w (length xs)) (xs ++ ys)
            (length-to_le_bytes w (length xs)) here

  pub ReadsBytes-be :
      remaining c ≡ to_be_bytes w (length xs) ++ (xs ++ ys) → ReadsBytes k.read_uint_be w c xs ys
  ReadsBytes-be here = record {
    after = advance (length xs) (advance w c);
    size = read_uint_be-to_be_bytes k c w (length xs) (xs ++ ys) short here;
    content = read_exact-append (advance w c) xs ys there;
    left = remaining-advance (advance w c) xs ys there;
  }
    where
      there : remaining (advance w c) ≡ xs ++ ys
      there =
          remaining_next c w (to_be_bytes w (length xs)) (xs ++ ys)
            (length-to_be_bytes w (length xs)) here

-- One byte, by `read_u8`.
module _ (k : Crates) (c : Cursor) (b : ℕ) (rest : Bytes) (here : remaining c ≡ b ∷ rest) where
  pub read_u8_here : k.read_uint_le 1 c ≡ ok (b, advance 1 c)
  unfolding from_le_bytes
  read_u8_here =
      rw (k.read_uint_le_lem, read_exact-append c (b ∷ []) rest here)
        (ap (λ n. ok (n, advance 1 c)) (omega arith))

  pub remaining_tail : remaining (advance 1 c) ≡ rest
  remaining_tail = remaining-advance c (b ∷ []) rest here

-- The loops run while bytes remain.
pub position_before_end :
    (c : Cursor) (b : ℕ) (rest : Bytes)
    → remaining c ≡ b ∷ rest
    → ltb c.position (length c.inner) ≡ true
position_before_end c b rest here =
    lt→ltb c.position (length c.inner)
      (omega (arith, ap length here, length-drop c.position c.inner))

pub position_at_end : (c : Cursor) → remaining c ≡ [] → ltb c.position (length c.inner) ≡ false
position_at_end c here =
    le→ltb c.position (length c.inner)
      (omega (arith, ap length here, length-drop c.position c.inner))
