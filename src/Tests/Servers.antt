-- ===== src/Tests/Servers.antt =====
-- Servers whose connections overlap, and what they accept, at concrete inputs.
use peach_db.Base.{
  ap, Bool, true, ltb, ◌&&◌, ◌≡◌, refl, ◌++◌, List, [], ◌∷◌, All, arith, false, some, none, inl,
}
use peach_db.Base.Words.{Bytes, IsByte, from_be_bytes, from_le_bytes}
use peach_db.Base.HashMap
use peach_db.Base.HashMap.{key_eq}
use peach_db.Db.Database.Flush.{entry_key}
use peach_db.Error.{ok}
use peach_db.Dtypes.Key.{Key}
use peach_db.Cursor.{read_exact}
use peach_db.Dtypes.Dtype
use peach_db.Dtypes.Field.{Field, raw}
use peach_db.Dtypes.Codec.{field_from_bytes, read_payload}
use peach_db.Db.Database.Durable.{append_entry-logged}
use peach_db.Db.WalCodec.{WalEntry, set}
use peach_db.Db.System.{System}
use peach_db.Db.Wal.{append_entry}
use peach_db.Db.FileHandler.{append, sync_all}
use peach_db.Db.Database.{get, found}
use peach_db.Db.Database.Open.{open_database}
use peach_db.Db.Database.Reopen.{crash}
use peach_db.Db.Database.History.{last_write}
use peach_db.Server.Protocol.{
  Request, ok_response, decode_request, read_command, command_from, read_arguments, read_key,
  read_field,
}
use peach_db.Server.Protocol.Decoded.{decode_request-IsRequest}
use peach_db.Server.Protocol.RoundTrip.{IsRequest}
use peach_db.Server.Connection.{Connection, handle_connection, answer, write_all}
use peach_db.Server.Connection.Pipeline.{connection}
use peach_db.Server.Run.{
  Server, serving, storing, Reach, start, next, bind, accept, log, stores, next_request, next_write,
  new, bound, accepted, turned, store, task_after,
}
use peach_db.Server.Run.Sequential.{handled, handle_connection-Reach}
use peach_db.Server.Run.Waiting.{waiting}
use peach_db.Server.Run.Crash.{Reach-crash}
use peach_db.Server.Run.Ordered.{Reach-get}
use peach_db.Tests.Sample.{sample_crates, sample_iteration, sample_text, key_a, blob}
use peach_db.Tests.Durability.{name, name-short, stored, stored-IsDurable}
use mathlib.Core.List.{Perm}

abbrev sets_blob : Bytes
sets_blob = 0x01 ∷ 0x03 ∷ 0 ∷ 1 ∷ 97 ∷ 0 ∷ 0 ∷ 0 ∷ 4 ∷ 0 ∷ 1 ∷ 2 ∷ 3 ∷ []

abbrev sets_raw : Bytes
sets_raw = 0x01 ∷ 0x03 ∷ 0 ∷ 1 ∷ 97 ∷ 0 ∷ 0 ∷ 0 ∷ 2 ∷ 0 ∷ 7 ∷ []

-- Two clients that set the same key.
abbrev pub one : Connection
one = connection (0 ∷ 0 ∷ 0 ∷ 13 ∷ sets_blob) []

abbrev two : Connection
two = connection (0 ∷ 0 ∷ 0 ∷ 11 ∷ sets_raw) []

abbrev seven : Field
seven = raw (7 ∷ [])

abbrev pub all_read : Connection
all_read = connection [] []

pub one_asks : next_write sample_crates one ≡ some (set key_a blob, all_read)
unfolding next_write next_request decode_request from_be_bytes from_le_bytes read_exact read_command
    command_from read_arguments read_key read_field field_from_bytes Dtype.try_from read_payload
one_asks = refl

two_asks : next_write sample_crates two ≡ some (set key_a seven, all_read)
unfolding next_write next_request decode_request from_be_bytes from_le_bytes read_exact read_command
    command_from read_arguments read_key read_field field_from_bytes Dtype.try_from read_payload
two_asks = refl

abbrev idle : Server
idle = new [] stored

pub appended : (w : WalEntry) (s : System) → s.fates ≡ [] → (append_entry w s).0 ≡ ok tt
appended w s calm = ap (λ r. r.0) (append_entry-logged w s calm)

abbrev Steps : (a b : Server) (ws vs : List WalEntry) → Type 0
Steps a b ws vs = Reach sample_crates sample_text sample_iteration a ws vs b

-- Both are logged, and then stored in the other order.
abbrev accepting_one : Server
accepting_one = accepted (inl one) (bound none idle)

abbrev accepting_both : Server
accepting_both = accepted (inl two) accepting_one

abbrev one_logged : Server
one_logged = record accepting_both {
  db = (append_entry (set key_a blob) stored).1;
  tasks = storing (set key_a blob) all_read ∷ serving two ∷ [];
}

abbrev both_logged : Server
both_logged = record one_logged {
  db = (append_entry (set key_a seven) one_logged.db).1;
  tasks = storing (set key_a blob) all_read ∷ storing (set key_a seven) all_read ∷ [];
}

all_bytes : Bytes → Bool
all_bytes [] = true
all_bytes (b ∷ bs) = ltb b 256 && all_bytes bs

all_bytes-IsByte : (bs : Bytes) → all_bytes bs ≡ true → All IsByte bs
unfolding all_bytes
all_bytes-IsByte [] h = tt
all_bytes-IsByte (b ∷ bs) h = (ground (arith, h), all_bytes-IsByte bs (ground (arith, h)))

pub one_bytes : All IsByte one.input
unfolding all_bytes
one_bytes = all_bytes-IsByte one.input refl

two_bytes : All IsByte two.input
unfolding all_bytes
two_bytes = all_bytes-IsByte two.input refl

one_logged-calm : one_logged.db.fates ≡ []
unfolding append_entry append sync_all
one_logged-calm = refl

both_reached : Steps idle both_logged (set key_a blob ∷ set key_a seven ∷ []) []
unfolding bound accepted
both_reached =
    next
      (next
        (next (next (next start (bind none refl)) (accept (inl one) refl one_bytes))
          (accept (inl two) refl two_bytes))
        (log [] (serving two ∷ []) one (set key_a blob) all_read refl one_asks
          (appended (set key_a blob) stored refl)))
      (log (storing (set key_a blob) all_read ∷ []) [] two (set key_a seven) all_read refl two_asks
        (appended (set key_a seven) one_logged.db one_logged-calm))

abbrev two_stored : Server
two_stored =
    turned (storing (set key_a blob) all_read ∷ [])
      (answer sample_crates sample_text sample_iteration (ok (ok_response none))
        (store (set key_a seven) both_logged.db) all_read)
      [] both_logged

abbrev all_stored : Server
all_stored =
    turned []
      (answer sample_crates sample_text sample_iteration (ok (ok_response none))
        (store (set key_a blob) two_stored.db) all_read)
      (task_after (
          answer sample_crates sample_text sample_iteration (ok (ok_response none))
            (store (set key_a seven) both_logged.db) all_read)
        ∷ [])
      two_stored

all_reached :
    Steps idle all_stored
      (set key_a blob ∷ set key_a seven ∷ [])
      (set key_a seven ∷ set key_a blob ∷ [])
all_reached =
    next
      (next both_reached
        (stores (storing (set key_a blob) all_read ∷ []) [] (set key_a seven) all_read refl))
      (stores [] _ (set key_a blob) all_read refl)

Reach-crash_example :
    Perm
      (set key_a blob ∷ set key_a seven ∷ [])
      ((set key_a seven ∷ set key_a blob ∷ []) ++ waiting all_stored.tasks)
    × ((open_database sample_crates name (crash all_stored.db)).0 ≡ ok tt)
    × ((k : Key)
        → ((get k all_stored.db).0
            ≡ found (
                last_write k (HashMap.get k stored.fields) (set key_a seven ∷ set key_a blob ∷ [])))
          × ((get k (open_database sample_crates name (crash all_stored.db)).1).0
              ≡ found (
                  last_write k
                    (HashMap.get k stored.fields)
                    (set key_a blob ∷ set key_a seven ∷ []))))
Reach-crash_example =
    Reach-crash sample_crates sample_text sample_iteration idle all_stored
      (set key_a blob ∷ set key_a seven ∷ []) (set key_a seven ∷ set key_a blob ∷ []) name
      stored-IsDurable refl refl name-short all_reached

-- One change alone, logged but not stored: the other keys do not notice.
abbrev alone_logged : Server
alone_logged = record accepting_one {
  db = (append_entry (set key_a blob) stored).1;
  tasks = storing (set key_a blob) all_read ∷ [];
}

abbrev alone_stored : Server
alone_stored =
    turned []
      (answer sample_crates sample_text sample_iteration (ok (ok_response none))
        (store (set key_a blob) alone_logged.db) all_read)
      [] alone_logged

alone_reached : Steps idle alone_stored (set key_a blob ∷ []) (set key_a blob ∷ [])
unfolding bound accepted
alone_reached =
    next
      (next (next (next start (bind none refl)) (accept (inl one) refl one_bytes)) (
        log [] [] one (set key_a blob) all_read refl one_asks
          (appended (set key_a blob) stored refl)))
      (stores [] [] (set key_a blob) all_read refl)

alone-settled : (k : Key) → All (λ w. key_eq (entry_key w) k ≡ false) (waiting alone_stored.tasks)
unfolding answer write_all
alone-settled k = tt

Reach-get_example :
    ((open_database sample_crates name (crash alone_stored.db)).0 ≡ ok tt)
    × ((get key_a (open_database sample_crates name (crash alone_stored.db)).1).0
        ≡ (get key_a alone_stored.db).0)
unfolding alone_reached
Reach-get_example =
    Reach-get sample_crates sample_text sample_iteration idle alone_stored (set key_a blob ∷ [])
      (set key_a blob ∷ []) name key_a stored-IsDurable refl refl name-short alone_reached
      ((((tt, tt), tt), tt), tt) (alone-settled key_a)

handle_connection-Reach_example :
    (ws : List WalEntry) × (vs : List WalEntry) × Steps accepting_both
      (handled sample_crates sample_text sample_iteration
        (serving one ∷ [])
        (handle_connection sample_crates sample_text sample_iteration two stored)
        []
        accepting_both)
      ws
      vs
unfolding bound accepted
handle_connection-Reach_example =
    handle_connection-Reach sample_crates sample_text sample_iteration (serving one ∷ []) [] two
      accepting_both refl

decoded : decode_request sample_crates sets_blob ≡ ok (Request.set key_a blob)
unfolding decode_request from_be_bytes from_le_bytes read_exact read_command command_from
    read_arguments read_key read_field field_from_bytes Dtype.try_from read_payload
decoded = refl

sets_blob-IsByte : All IsByte sets_blob
unfolding all_bytes
sets_blob-IsByte = all_bytes-IsByte sets_blob refl

decode_request-IsRequest_example : IsRequest (Request.set key_a blob)
decode_request-IsRequest_example =
    decode_request-IsRequest sample_crates sets_blob (Request.set key_a blob) sets_blob-IsByte
      decoded
