-- ===== src/Dtypes/Key.antt =====
-- `Key` of src/dtypes.rs.
use peach_db.Base.{ℕ, ◌+◌, Bool, [], length, ◌==◌}
use peach_db.Base.Words.{Bytes}

abbrev pub key_len_byte_size : ℕ
key_len_byte_size = 2

-- The bytes of a key.
pub record Key : Type 0 where
  pub bytes : Bytes

abbrev pub from : Bytes → Key
from bytes = record { bytes = bytes }

abbrev pub empty : Key
empty = record { bytes = [] }

abbrev pub as_bytes : Key → Bytes
as_bytes k = k.bytes

abbrev pub len : Key → ℕ
len k = length k.bytes

unfoldable pub is_empty : Key → Bool
is_empty k = len k == 0

unfoldable pub size : Key → ℕ
size k = key_len_byte_size + len k
