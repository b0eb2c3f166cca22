-- ===== src/Cursor/Inputs.antt =====
-- Reads on any input: how far they move, and what a cut of the input does to them.
use peach_db.Base.{
  ℕ, ◌+◌, ◌≤◌, ◌<◌, ◌^◌, ◌≡◌, ◌≢◌, refl, sym, ap, ◌∙◌, [], ◌∷◌, ◌++◌, ◌⊎◌, inl, inr, arith, leb,
  leb→le, Bool-cases, length, drop, length-drop, length-append, drop-add, take-append, drop-append,
  take-append_le, drop-append_le,
}
use peach_db.Base.Words.{
  Bytes, from_le_bytes, to_le_bytes, length-to_le_bytes, from_le_bytes-to_le_bytes,
}
use peach_db.Error.{
  Outcome, ok, err, io, unexpected_eof, diverged, ◌>>=◌, >>=-eq-ok, >>=-ne-diverged,
}
use peach_db.Cursor.{Cursor, Crates, remaining, advance, read_exact}

-- The bytes that are left.
abbrev pub left : Cursor → ℕ
left c = length (remaining c)

left-advance : (n : ℕ) (c : Cursor) → n ≤ left c → left (advance n c) + n ≡ left c
left-advance n c h =
    omega (arith, ap length (drop-add c.position n c.inner), length-drop n (remaining c))

-- A successful read takes as many bytes as it was asked for.
pub read_exact_takes :
    (n : ℕ) (c : Cursor) (r : Bytes × Cursor) → read_exact n c ≡ ok r → left r.1 + n ≡ left c
unfolding read_exact
read_exact_takes n c r h = ground (arith, left-advance n c)

pub read_exact-ne-diverged : (n : ℕ) (c : Cursor) → read_exact n c ≢ diverged
unfolding read_exact
read_exact-ne-diverged n c h = ground arith

module _ (k : Crates) (n : ℕ) (c : Cursor) where
  pub read_uint_le-ne-diverged : k.read_uint_le n c ≢ diverged
  read_uint_le-ne-diverged =
      rw k.read_uint_le_lem (>>=-ne-diverged _ _ (read_exact-ne-diverged n c) (λ r _ p. cc))

  pub read_uint_be-ne-diverged : k.read_uint_be n c ≢ diverged
  read_uint_be-ne-diverged =
      rw k.read_uint_be_lem (>>=-ne-diverged _ _ (read_exact-ne-diverged n c) (λ r _ p. cc))

  pub read_uint_le_takes : (r : ℕ × Cursor) → k.read_uint_le n c ≡ ok r → left r.1 + n ≡ left c
  read_uint_le_takes r h =
      let (b, e, q) = >>=-eq-ok (read_exact n c) _ (rw k.read_uint_le_lem at h) in
      ground (arith, read_exact_takes n c b e, q)

-- A read from an input whose end `back` was cut off: it fails, or it does not notice.
abbrev pub Cut {ℓ} : {A : Type ℓ} → Outcome (A × Cursor) → A → Bytes → Bytes → Type ℓ
Cut m v ys back =
    (m ≡ err (io unexpected_eof)) ⊎ ((c : Cursor) × (m ≡ ok (v, c)) × (remaining c ++ back ≡ ys))

pub Cut-bind {ℓ κ} :
    {A : Type ℓ} {B : Type κ} {m : Outcome (A × Cursor)} {v : A} {ys back : Bytes}
    (f : A × Cursor → Outcome B)
    → Cut m v ys back
    → ((c : Cursor) → remaining c ++ back ≡ ys → f (v, c) ≡ err (io unexpected_eof))
    → (m >>= f) ≡ err (io unexpected_eof)
Cut-bind f (inl e) next = rw e
Cut-bind f (inr (c, e, rest)) next = rw e (next c rest)

pub read_exact-Cut :
    (c : Cursor) (n : ℕ) (xs ys back : Bytes)
    → length xs ≡ n
    → remaining c ++ back ≡ xs ++ ys
    → Cut (read_exact n c) xs ys back
unfolding read_exact
read_exact-Cut c n xs ys back e cut = elim (Bool-cases (leb n (left c))) [
  | inl whole ↦
      let fits : n ≤ left c = leb→le n (left c) whole in
      inr (
        advance n c,
        rw (whole, ← take-append_le n (remaining c) back fits, cut, ← e, take-append),
        ap (λ t. t ++ back) (drop-add c.position n c.inner)
            ∙ sym (drop-append_le n (remaining c) back fits)
            ∙ ap (drop n) cut
            ∙ rw (← e) (drop-append xs ys),
      )
  | inr short ↦ inl (rw short)
]

module _ (k : Crates) (c : Cursor) (w n : ℕ) (ys back : Bytes) (fits : n < 256 ^ w) where
  pub read_uint_le-Cut :
      remaining c ++ back ≡ to_le_bytes w n ++ ys → Cut (k.read_uint_le w c) n ys back
  read_uint_le-Cut cut =
      elim (read_exact-Cut c w (to_le_bytes w n) ys back (length-to_le_bytes w n) cut) [
        | inl e ↦ inl (rw (k.read_uint_le_lem, e))
        | inr (c', e, rest) ↦
            inr (c', rw (k.read_uint_le_lem, e, from_le_bytes-to_le_bytes w n fits), rest)
      ]

-- Something was cut off, so the input cannot be used up.
pub cut_nothing_left : (c : Cursor) (b : ℕ) (back : Bytes) → remaining c ++ b ∷ back ≢ []
cut_nothing_left c b back h = omega (arith, ap length h, length-append (remaining c) (b ∷ back))

pub read_u8-Cut :
    (k : Crates) (c : Cursor) (v : ℕ) (ys back : Bytes)
    → remaining c ++ back ≡ v ∷ ys
    → Cut (k.read_uint_le 1 c) v ys back
unfolding from_le_bytes
read_u8-Cut k c v ys back cut = elim (read_exact-Cut c 1 (v ∷ []) ys back refl cut) [
  | inl e ↦ inl (rw (k.read_uint_le_lem, e))
  | inr (c', e, rest) ↦
      inr (c', rw (k.read_uint_le_lem, e) (ap (λ n. ok (n, c')) (omega arith)), rest)
]
