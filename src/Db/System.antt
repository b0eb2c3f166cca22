-- ===== src/Db/System.antt =====
-- The three files of a database, the state in memory, and programs over both.
-- A task owns each file and takes its commands one after the other (src/db/file.rs), so a command
-- is one step on the file's content.
use peach_db.Base.{ℕ, List, [], ◌∷◌}
use peach_db.Base.Words.{Bytes}
use peach_db.Base.HashMap.{HashMap}
use peach_db.Error.{Outcome, ok, err, panic, diverged, PeachDbError, IoErrorKind}
use peach_db.Dtypes.Field.{Field}
use peach_db.Db.WalCodec.{WalEntry}
use peach_db.Db.IndexCodec.{IndexEntry}

-- What becomes of a system call: it is done, or it fails with an error, and a write then has
-- written a part of its bytes.
pub data Fate : Type 0 where
  done : Fate
  fails : IoErrorKind → ℕ → Fate

-- `Database` and `Wal` of src/db/db.rs and wal.rs, with the files that their handlers own. `fates`
-- are those of the system calls to come; behind the end of the list every call is done.
pub record System : Type 0 where
  pub db_file : Bytes
  pub index_file : Bytes
  pub wal_file : Bytes
  pub fates : List Fate
  pub entries : List WalEntry
  pub fields : HashMap Field
  pub index : HashMap IndexEntry

pub data FileId : Type 0 where
  db_id index_id wal_id : FileId

abbrev pub content : FileId → System → Bytes
content db_id s = s.db_file
content index_id s = s.index_file
content wal_id s = s.wal_file

abbrev pub put_content : FileId → Bytes → System → System
put_content db_id bytes s = record s { db_file = bytes }
put_content index_id bytes s = record s { index_file = bytes }
put_content wal_id bytes s = record s { wal_file = bytes }

-- A program keeps the state that it has reached when it fails.
abbrev pub Exec {ℓ} : Type ℓ → Type ℓ
Exec A = System → Outcome A × System

module _ {ℓ} {A : Type ℓ} where
  abbrev pub pure : A → Exec A
  pure a s = (ok a, s)

  abbrev pub lift : Outcome A → Exec A
  lift r s = (r, s)

  abbrev pub gets : (System → A) → Exec A
  gets f s = (ok (f s), s)

abbrev pub modify : (System → System) → Exec (Unit {0})
modify f s = (ok tt, f s)

module _ {ℓ κ} {A : Type ℓ} {B : Type κ} where
  abbrev pub continue : Outcome A → (A → Exec B) → Exec B
  continue (ok a) f s = f a s
  continue (err e) f s = (err e, s)
  continue panic f s = (panic, s)
  continue diverged f s = (diverged, s)

  infixl 5 ◌>>=◌
  abbrev pub ◌>>=◌ : Exec A → (A → Exec B) → Exec B
  ◌>>=◌ m f s = continue (m s).0 f (m s).1

infixl 5 ◌>>◌
abbrev pub ◌>>◌ {ℓ} : {B : Type ℓ} → Exec (Unit {0}) → Exec B → Exec B
m >> n = m >>= λ _. n

-- The next system call, with what it leaves behind when it is done and when it fails after a part.
abbrev pub fated {ℓ} :
    {A : Type ℓ}
    → (IoErrorKind → PeachDbError)
    → A
    → (System → System)
    → (ℕ → System → System)
    → List Fate
    → Exec A
fated to_error a whole part [] s = (ok a, whole s)
fated to_error a whole part (done ∷ fates) s = (ok a, whole (record s { fates = fates }))
fated to_error a whole part (fails kind n ∷ fates) s =
    (err (to_error kind), part n (record s { fates = fates }))

abbrev pub step {ℓ} :
    {A : Type ℓ}
    → (IoErrorKind → PeachDbError)
    → A
    → (System → System)
    → (ℕ → System → System)
    → Exec A
step to_error a whole part s = fated to_error a whole part s.fates s
