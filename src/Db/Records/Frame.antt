-- ===== src/Db/Records/Frame.antt =====
-- Where the parts of a record stand, for a cursor in front of its frame.
use peach_db.Base.{ℕ, ◌≡◌, refl, ◌∙◌, ◌++◌, length}
use peach_db.Base.Words.{Bytes, to_le_bytes, length-to_le_bytes}
use peach_db.Cursor.{Cursor, remaining, advance}
use peach_db.Cursor.Laws.{remaining_next}
use peach_db.Db.Records.{frame}
use mathlib.Core.List.{append_assoc}

module _ (c : Cursor) (magic : Bytes) (crc : ℕ) (key payload rest : Bytes) (four : length magic ≡ 4)
    (here : remaining c ≡ frame magic (length key) (length payload) crc key payload ++ rest) where
  pub at_magic :
      remaining c
      ≡ magic
        ++ (to_le_bytes 2 (length key)
            ++ (to_le_bytes 4 (length payload)
                ++ (to_le_bytes 4 crc ++ (key ++ (payload ++ rest)))))
  at_magic = here ∙ simp append_assoc

  pub at_key_len :
      remaining (advance 4 c)
      ≡ to_le_bytes 2 (length key)
        ++ (to_le_bytes 4 (length payload) ++ (to_le_bytes 4 crc ++ (key ++ (payload ++ rest))))
  at_key_len = remaining_next c 4 magic _ four at_magic

  pub at_field_len :
      remaining (advance 2 (advance 4 c))
      ≡ to_le_bytes 4 (length payload) ++ (to_le_bytes 4 crc ++ (key ++ (payload ++ rest)))
  at_field_len = remaining_next (advance 4 c) 2 _ _ (length-to_le_bytes 2 (length key)) at_key_len

  pub at_crc :
      remaining (advance 4 (advance 2 (advance 4 c)))
      ≡ to_le_bytes 4 crc ++ (key ++ (payload ++ rest))
  at_crc =
      remaining_next (advance 2 (advance 4 c)) 4 _ _ (length-to_le_bytes 4 (length payload))
        at_field_len

  pub at_key :
      remaining (advance 4 (advance 4 (advance 2 (advance 4 c)))) ≡ key ++ (payload ++ rest)
  at_key =
      remaining_next (advance 4 (advance 2 (advance 4 c))) 4 _ _ (length-to_le_bytes 4 crc) at_crc

  pub at_field :
      remaining (advance (length key) (advance 4 (advance 4 (advance 2 (advance 4 c)))))
      ≡ payload ++ rest
  at_field =
      remaining_next (advance 4 (advance 4 (advance 2 (advance 4 c)))) (length key) key _ refl
        at_key
