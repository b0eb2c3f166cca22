-- ===== src/Server/Run/Turns.antt =====
-- A turn of `handle_connection` of src/server/server.rs that asks for no change.
use peach_db.Base.{
  ℕ, ◌≡◌, refl, sym, subst, Option, none, some, List, [], ◌∷◌, ltb, length, take, drop, All, Bool,
  true, false, Bool-cases, inl, inr,
}
use peach_db.Base.Words.{Bytes, IsByte, from_be_bytes}
use peach_db.Error.{Outcome, ok, err, panic, diverged, PeachDbError}
use peach_db.Cursor.{Crates}
use peach_db.Dtypes.Codec.DecodedElements.{take-IsByte, drop-IsByte}
use peach_db.Db.WalCodec.{WalEntry, set, delete}
use peach_db.Db.WalCodec.RoundTrip.{IsEntry}
use peach_db.Db.System.{System}
use peach_db.Db.Database.{Iteration, get, keys}
use peach_db.Server.Protocol.{Request, Response, decode_request}
use peach_db.Server.Protocol.Decoded.{decode_request-IsRequest}
use peach_db.Server.Handler.{handle_request}
use peach_db.Server.Connection.{
  Connection, Turn, write_all, send_response, response_bytes, answer, after_sending, serve_request,
  serve_message, serve_turn,
}
use peach_db.Server.Run.{
  Task, serving, storing, ended, task_after, db_after, writes_of, with_stream, next_request,
  next_write,
}
use peach_db.Server.Run.Sequential.{serve_turn-request, writes_of-some}

-- What is still to be read are bytes, and an entry that waits is well formed.
abbrev pub IsTask : Task → Type 0
IsTask (serving c) = All IsByte c.input
IsTask (storing w c) = IsEntry w × All IsByte c.input
IsTask (ended r c) = Unit

-- A turn that leaves the database as it is.
abbrev pub Leaves : System → Turn → Type 0
Leaves s t = (db_after t ≡ s) × IsTask (task_after t)

write_all-input : (bytes : Bytes) (c : Connection) → (write_all bytes c).1.input ≡ c.input
unfolding write_all
write_all-input bytes c = go c.breaks
  where
    go : (breaks : List Bool) → (write_all bytes (record c { breaks = breaks })).1.input ≡ c.input
    go [] = refl
    go (false ∷ breaks) = refl
    go (true ∷ breaks) = refl

after_sending-Leaves :
    (p : Bool × Connection) (s : System) → All IsByte p.1.input → Leaves s (after_sending p s)
after_sending-Leaves (true, c) s h = (refl, h)
after_sending-Leaves (false, c) s h = (refl, tt)

pub sent-Leaves :
    (bytes : Bytes) (c : Connection) (s : System)
    → All IsByte c.input
    → Leaves s (after_sending (write_all bytes c) s)
sent-Leaves bytes c s h =
    after_sending-Leaves (write_all bytes c) s
      (subst (All IsByte) (sym (write_all-input bytes c)) h)

module _ (crates : Crates) (to_string : PeachDbError → Bytes) (it : Iteration) where
  pub answer-Leaves :
      (r : Outcome Response) (s : System) (c : Connection)
      → All IsByte c.input
      → Leaves s (answer crates to_string it r s c)
  unfolding answer
  answer-Leaves (ok res) s c h = sent-Leaves (response_bytes res) c s h
  answer-Leaves (err e) s c h = (refl, tt)
  answer-Leaves panic s c h = (refl, tt)
  answer-Leaves diverged s c h = (refl, tt)

  serve_request-Leaves :
      (r : Outcome Request) (s : System) (c : Connection)
      → writes_of r ≡ none
      → All IsByte c.input
      → Leaves s (serve_request crates to_string it r s c)
  unfolding serve_request send_response handle_request get keys
  serve_request-Leaves (ok Request.ping) s c e h = answer-Leaves _ s c h
  serve_request-Leaves (ok (Request.get key)) s c e h = answer-Leaves _ s c h
  serve_request-Leaves (ok Request.keys) s c e h = answer-Leaves _ s c h
  serve_request-Leaves (ok (Request.set key field)) s c e h = cc e
  serve_request-Leaves (ok (Request.del key)) s c e h = cc e
  serve_request-Leaves (err x) s c e h = sent-Leaves _ c s h
  serve_request-Leaves panic s c e h = (refl, tt)
  serve_request-Leaves diverged s c e h = (refl, tt)

  -- The stream behind a message, and the bytes that the message was decoded from.
  abbrev Reads : Outcome Request × Connection → Type 0
  Reads p =
      All IsByte p.1.input
      × ((q : Request) → p.0 ≡ ok q → (m : Bytes) × All IsByte m × (decode_request crates m ≡ ok q))

  Reads-along : (p q : Outcome Request × Connection) → some p ≡ some q → Reads p → Reads q
  Reads-along p q e h = let same : p ≡ q = cc e in subst Reads same h

  next_request-IsByte :
      (c : Connection) (p : Outcome Request × Connection)
      → All IsByte c.input
      → next_request crates c ≡ some p
      → Reads p
  unfolding next_request
  next_request-IsByte c p h e = elim (Bool-cases (ltb (length c.input) 4)) [
    | inl short ↦ cc (rw short at e)
    | inr four ↦
        elim (Bool-cases (ltb (length (drop 4 c.input)) (from_be_bytes (take 4 c.input)))) [
          | inl cut ↦ cc (rw (four, cut) at e)
          | inr whole ↦
              Reads-along _ p (rw (four, whole) at e) (here (from_be_bytes (take 4 c.input)))
        ]
  ]
    where
      here :
          (n : ℕ)
          → Reads (
            decode_request crates (take n (drop 4 c.input)),
            record c { input = drop n (drop 4 c.input) },
          )
      here n =
          let rest = drop-IsByte 4 c.input h in
          (drop-IsByte n (drop 4 c.input) rest, λ q d. (_, take-IsByte n (drop 4 c.input) rest, d))

  -- The change that a turn asks for is a well-formed entry.
  pub next_write-IsEntry :
      (c : Connection) (w : WalEntry) (c' : Connection)
      → All IsByte c.input
      → next_write crates c ≡ some (w, c')
      → IsEntry w × All IsByte c'.input
  next_write-IsEntry c w c' h e =
      let (r, read, wrote) = writes_of-some crates to_string it c w c' e in
      let (rest, decoded) = next_request-IsByte c (r, c') h read in (valid r wrote decoded, rest)
    where
      valid :
          (r : Outcome Request)
          → writes_of r ≡ some w
          → ((q : Request)
              → r ≡ ok q
              → (m : Bytes) × All IsByte m × (decode_request crates m ≡ ok q))
          → IsEntry w
      valid (ok (Request.set key field)) f decoded =
          let (m, bytes, d) = decoded (Request.set key field) refl in
          let same : set key field ≡ w = cc f in
          subst IsEntry same (decode_request-IsRequest crates m (Request.set key field) bytes d)
      valid (ok (Request.del key)) f decoded =
          let (m, bytes, d) = decoded (Request.del key) refl in
          let same : delete key ≡ w = cc f in
          subst IsEntry same (decode_request-IsRequest crates m (Request.del key) bytes d)
      valid (ok Request.ping) f decoded = cc f
      valid (ok (Request.get key)) f decoded = cc f
      valid (ok Request.keys) f decoded = cc f
      valid (err x) f decoded = cc f
      valid panic f decoded = cc f
      valid diverged f decoded = cc f

  serve_turn-unread :
      (c : Connection) (s : System)
      → next_request crates c ≡ none
      → Leaves s (serve_turn crates to_string it c s)
  unfolding next_request serve_turn serve_message
  serve_turn-unread c s e = elim (Bool-cases (ltb (length c.input) 4)) [
    | inl short ↦ rw short (refl, tt)
    | inr four ↦
        elim (Bool-cases (ltb (length (drop 4 c.input)) (from_be_bytes (take 4 c.input)))) [
          | inl cut ↦ rw (four, cut) (refl, tt)
          | inr whole ↦ cc (rw (four, whole) at e)
        ]
  ]

  -- A turn that asks for no change leaves the database as it is.
  pub serve_turn-Leaves :
      (c : Connection) (s : System)
      → All IsByte c.input
      → next_write crates c ≡ none
      → Leaves s (serve_turn crates to_string it c s)
  unfolding next_write
  serve_turn-Leaves c s h e = go (next_request crates c) refl
    where
      unasked : (o : Option WalEntry) (d : Connection) → with_stream d o ≡ none → o ≡ none
      unasked none d k = refl
      unasked (some w) d k = cc k

      go :
          (o : Option (Outcome Request × Connection))
          → next_request crates c ≡ o
          → Leaves s (serve_turn crates to_string it c s)
      go none f = serve_turn-unread c s f
      go (some (r, c')) f =
          subst (Leaves s) (sym (serve_turn-request crates to_string it c s r c' f)) (
            serve_request-Leaves r s c' (unasked (writes_of r) c' (rw f at e))
              (next_request-IsByte c (r, c') h f).0)
