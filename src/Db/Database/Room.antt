-- ===== src/Db/Database/Room.antt =====
-- How many bytes `Database::flush` of src/db/db.rs adds to the `.db` file for the entries of the log.
use peach_db.Base.{ℕ, ◌+◌, ◌≤◌, ◌≡◌, arith, List, [], ◌∷◌, ◌++◌, All}
use peach_db.Base.HashMap
use peach_db.Base.HashMap.{HashMap}
use peach_db.Base.HashMap.Weights.{weigh, weigh-insert, weigh-agree}
use peach_db.Db.WalCodec.{WalEntry, set, delete}
use peach_db.Db.Records.{DiskRecord, live, IsRecord}
use peach_db.Db.Database.{Iteration}
use peach_db.Db.Database.Flush.{entry_key, net_entries}
use peach_db.Db.Database.Located.{
  kill, kill-IsRecord, append-IsRecord, size, sizes, sizes-kill, sizes-append,
}
use peach_db.Db.Database.Net.{net_entries-IsDistinct}
use peach_db.Db.Database.Written.{written, IsNet}

-- The record of a `set`; a `delete` overwrites one.
abbrev pub entry_size : WalEntry → ℕ
entry_size (set key field) = size (live key field)
entry_size (delete key) = 0

abbrev pub log_size : List WalEntry → ℕ
log_size [] = 0
log_size (e ∷ es) = entry_size e + log_size es

pub log_size-append : (es fs : List WalEntry) → log_size (es ++ fs) ≡ log_size es + log_size fs
log_size-append [] fs = omega arith
log_size-append (e ∷ es) fs = omega (arith, log_size-append es fs)

weigh-net_entries :
    (es : List WalEntry) (net : HashMap WalEntry)
    → weigh entry_size (net_entries es net) ≤ weigh entry_size net + log_size es
unfolding net_entries
weigh-net_entries [] net = omega arith
weigh-net_entries (e ∷ es) net = omega (
  arith,
  weigh-net_entries es (HashMap.insert (entry_key e) e net),
  weigh-insert entry_size (entry_key e) e net,
)

-- The order in which a map is walked does not matter.
pub weigh-net :
    (it : Iteration) (es : List WalEntry)
    → weigh entry_size (it.order WalEntry (net_entries es [])) ≤ log_size es
weigh-net it es = omega (
  arith,
  weigh-net_entries es [],
  weigh-agree entry_size (it.order WalEntry (net_entries es [])) (net_entries es [])
      (it.order_keeps WalEntry (net_entries es []) (net_entries-IsDistinct es [] tt))
      (it.get-order WalEntry (net_entries es [])),
)

pub sizes-written :
    (net : HashMap WalEntry) (rs : List DiskRecord)
    → All IsNet net
    → All IsRecord rs
    → sizes (written net rs) ≡ sizes rs + weigh entry_size net
sizes-written [] rs names hs = omega arith
sizes-written ((j, set key field) ∷ net) rs ((same, valid), names) hs = omega (
  arith,
  sizes-written net (rs ++ live key field ∷ []) names
      (append-IsRecord (live key field) rs valid hs),
  sizes-append rs (live key field),
)
sizes-written ((j, delete key) ∷ net) rs (name, names) hs =
    omega
      (arith, sizes-written net (kill key rs) names (kill-IsRecord key rs hs), sizes-kill key rs hs)
