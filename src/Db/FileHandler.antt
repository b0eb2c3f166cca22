-- ===== src/Db/FileHandler.antt =====
-- `FileHandler` of src/db/file.rs, and the direct calls on a file in `Database::new` and `init`.
pub mod Laws
use peach_db.Base.{ℕ, ◌+◌, ◌-◌, ◌++◌, length, take, drop, replicate}
use peach_db.Base.Words.{Bytes}
use peach_db.Error.{PeachDbError, io, IoErrorKind, other}
use peach_db.Db.System.{System, FileId, content, put_content, Exec, step}

-- Every error of a handler becomes `ErrorKind::Other`.
abbrev pub map_file_handler_error : IoErrorKind → PeachDbError
map_file_handler_error kind = io other

-- A write at a position, which fills a gap behind the end with zeros.
abbrev pub write_bytes : ℕ → Bytes → Bytes → Bytes
write_bytes pos bytes file =
    take pos file ++ (replicate (pos - length file) 0 ++ (bytes ++ drop (pos + length bytes) file))

abbrev pub resize : ℕ → Bytes → Bytes
resize len file = take len file ++ replicate (len - length file) 0

abbrev untouched : ℕ → System → System
untouched n s = s

module _ (f : FileId) where
  unfoldable pub read_all : Exec Bytes
  read_all s = step map_file_handler_error (content f s) (λ t. t) untouched s

  unfoldable pub write_at : ℕ → Bytes → Exec (Unit {0})
  write_at pos bytes =
      step map_file_handler_error tt (λ s. put_content f (write_bytes pos bytes (content f s)) s)
        (λ n s. put_content f (write_bytes pos (take n bytes) (content f s)) s)

  -- The position at which the bytes were put.
  unfoldable pub append : Bytes → Exec ℕ
  append bytes s =
      step map_file_handler_error (length (content f s))
        (λ t. put_content f (content f t ++ bytes) t)
        (λ n t. put_content f (content f t ++ take n bytes) t) s

  unfoldable pub set_len : ℕ → Exec (Unit {0})
  set_len len =
      step map_file_handler_error tt (λ s. put_content f (resize len (content f s)) s) untouched

  unfoldable pub sync_all : Exec (Unit {0})
  sync_all = step map_file_handler_error tt (λ s. s) untouched

  -- `file.set_len(0)`, `file.write_all` at the start, `file.read_to_end`, and calls such as
  -- `metadata` that change nothing: their errors keep their kind.
  unfoldable pub raw_set_len : ℕ → Exec (Unit {0})
  raw_set_len len = step io tt (λ s. put_content f (resize len (content f s)) s) untouched

  unfoldable pub raw_write_all : Bytes → Exec (Unit {0})
  raw_write_all bytes =
      step io tt (λ s. put_content f (write_bytes 0 bytes (content f s)) s)
        (λ n s. put_content f (write_bytes 0 (take n bytes) (content f s)) s)

  unfoldable pub raw_read_to_end : Exec Bytes
  raw_read_to_end s = step io (content f s) (λ t. t) untouched s

  unfoldable pub raw_look : Exec ℕ
  raw_look s = step io (length (content f s)) (λ t. t) untouched s
