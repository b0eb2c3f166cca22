-- ===== src/Main.antt =====
-- `main` of src/main.rs: a database is opened, and a server runs on it.
pub mod Restarts
use peach_db.Base.{List, [], ◌∷◌, ◌++◌, ◌≡◌}
use peach_db.Base.Words.{Bytes}
use peach_db.Error.{Outcome, ok, PeachDbError, ◌>>=◌}
use peach_db.Cursor.{Crates}
use peach_db.Db.WalCodec.{WalEntry}
use peach_db.Db.System.{System}
use peach_db.Db.Database.{Iteration}
use peach_db.Db.Database.Open.{open_database}
use peach_db.Db.Database.Reopen.{crash}
use peach_db.Server.Run.{Server, new, Reach}

abbrev pub database_name : Bytes
database_name = b'p' ∷ b'e' ∷ b'a' ∷ b'c' ∷ b'h' ∷ b'd' ∷ b'b' ∷ []

abbrev pub address : Bytes
address =
    b'1' ∷ b'2' ∷ b'7' ∷ b'.' ∷ b'0' ∷ b'.' ∷ b'0' ∷ b'.' ∷ b'1' ∷ b':' ∷ b'7' ∷ b'8' ∷ b'7' ∷ b'8'
    ∷ []

-- Up to `server.run()`, which is `Reach`.
unfoldable pub main : Crates → System → Outcome Server
main crates s =
    let opened = open_database crates database_name s in
    do done ← opened.0; ok (new address opened.1)

module _ (crates : Crates) (to_string : PeachDbError → Bytes) (it : Iteration) where
  -- The program is started on empty files, serves, is killed between two steps of its server, and is
  -- started again on the files that it left, as often as one likes: the server that the last start
  -- gives, and what was logged until then.
  pub data Lives : Server → List WalEntry → Type 0 where
    first :
        {a : Server} (s : System)
        → s.db_file ≡ []
        → s.index_file ≡ []
        → s.wal_file ≡ []
        → s.fates ≡ []
        → main crates s ≡ ok a
        → Lives a []
    again :
        {a b c : Server} {ws vs us : List WalEntry}
        → Lives a ws
        → Reach crates to_string it a vs us b
        → main crates (crash b.db) ≡ ok c
        → Lives c (ws ++ vs)
