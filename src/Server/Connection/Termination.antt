-- ===== src/Server/Connection/Termination.antt =====
-- `Server::handle_connection` of src/server/server.rs on any input: the loop and its fuel.
use peach_db.Base.{
  ℕ, zero, suc, ◌<◌, ◌≡◌, ◌≢◌, refl, Bool, true, false, List, [], ◌∷◌, arith, length, take, drop,
  ltb, length-drop, Bool-cases, inl, inr,
}
use peach_db.Base.Words.{Bytes, from_be_bytes}
use peach_db.Error.{
  Outcome, ok, err, panic, diverged, PeachDbError, IoErrorKind, unexpected_eof, connection_reset,
  interrupted, timed_out, other, >>=-ne-diverged,
}
use peach_db.Cursor.{Cursor, Crates}
use peach_db.Cursor.Inputs.{
  read_uint_le-ne-diverged, read_uint_be-ne-diverged, read_exact-ne-diverged,
}
use peach_db.Dtypes.Codec.Inputs.{field_from_bytes-ne-diverged}
use peach_db.Db.System.{System}
use peach_db.Db.Database.{Iteration}
use peach_db.Server.Protocol.{
  Command, Request, Response, command_from, read_key, read_field, read_arguments, read_command,
  decode_request,
}
use peach_db.Server.Handler.{handle_request}
use peach_db.Server.Handler.Replies.{handle_request-answers}
use peach_db.Server.Connection.{
  Connection, Turn, again, leave, write_all, send_response, end_of_stream, after_sending,
  after_turn, answer, serve_request, serve_message, serve_turn, serve_turns, handle_connection,
}

module _ (crates : Crates) where
  read_key-ne-diverged : (c : Cursor) → read_key crates c ≢ diverged
  unfolding read_key
  read_key-ne-diverged c =
      >>=-ne-diverged _ _ (read_uint_be-ne-diverged crates 2 c)
        λ r _. >>=-ne-diverged _ _ (read_exact-ne-diverged _ _) (λ r₂ _ p. cc)

  read_field-ne-diverged : (c : Cursor) → read_field crates c ≢ diverged
  unfolding read_field
  read_field-ne-diverged c = >>=-ne-diverged _ _ (read_uint_be-ne-diverged crates 4 c) λ r _.
      >>=-ne-diverged _ _ (read_exact-ne-diverged _ _)
        λ r₂ _. >>=-ne-diverged _ _ (field_from_bytes-ne-diverged _) (λ r₃ _ p. cc)

  read_arguments-ne-diverged : (cmd : Command) (c : Cursor) → read_arguments crates cmd c ≢ diverged
  unfolding read_arguments
  read_arguments-ne-diverged Command.ping c = λ p. cc
  read_arguments-ne-diverged Command.keys c = λ p. cc
  read_arguments-ne-diverged Command.get c =
      >>=-ne-diverged _ _ (read_key-ne-diverged c) (λ r _ p. cc)
  read_arguments-ne-diverged Command.del c =
      >>=-ne-diverged _ _ (read_key-ne-diverged c) (λ r _ p. cc)
  read_arguments-ne-diverged Command.set c =
      >>=-ne-diverged _ _ (read_key-ne-diverged c)
        λ r _. >>=-ne-diverged _ _ (read_field-ne-diverged r.1) (λ r₂ _ p. cc)

  command_from-ne-diverged : (b : ℕ) → command_from b ≢ diverged
  unfolding command_from
  command_from-ne-diverged b h = ground arith

  read_command-ne-diverged : (c : Cursor) → read_command crates c ≢ diverged
  unfolding read_command
  read_command-ne-diverged c = >>=-ne-diverged _ _ (read_uint_le-ne-diverged crates 1 c) λ r _.
      >>=-ne-diverged _ _ (command_from-ne-diverged r.0) λ cmd _. read_arguments-ne-diverged cmd r.1

  decode_request-ne-diverged : (bytes : Bytes) → decode_request crates bytes ≢ diverged
  unfolding decode_request
  decode_request-ne-diverged bytes =
      >>=-ne-diverged _ _ (read_uint_le-ne-diverged crates 1 _)
        λ r _ h. ground (arith, read_command-ne-diverged r.1)

-- A turn that is not the last leaves less input, and no last turn runs out of fuel.
abbrev Advances : ℕ → Turn → Type 0
Advances n (again c s) = length c.input < n
Advances n (leave r c s) = r ≢ diverged

after_sending-Advances :
    (n : ℕ) (bytes : Bytes) (c : Connection) (s : System)
    → length c.input < n
    → Advances n (after_sending (write_all bytes c) s)
unfolding write_all
after_sending-Advances n bytes c s h = go c.breaks
  where
    go :
        (breaks : List Bool)
        → Advances n (after_sending (write_all bytes (record c { breaks = breaks })) s)
    go [] = h
    go (false ∷ breaks) = h
    go (true ∷ breaks) = λ p. cc

end_of_stream-ne-diverged : (kind : IoErrorKind) → end_of_stream kind ≢ diverged
unfolding end_of_stream
end_of_stream-ne-diverged unexpected_eof = λ p. cc
end_of_stream-ne-diverged connection_reset = λ p. cc
end_of_stream-ne-diverged interrupted = λ p. cc
end_of_stream-ne-diverged timed_out = λ p. cc
end_of_stream-ne-diverged other = λ p. cc

module _ (crates : Crates) (to_string : PeachDbError → Bytes) (it : Iteration) where
  answer-Advances :
      (n : ℕ) (res : Outcome Response) (s : System) (c : Connection)
      → (r : Response) × (res ≡ ok r)
      → length c.input < n
      → Advances n (answer crates to_string it res s c)
  unfolding answer
  answer-Advances n res s c (r, e) h = rw e (after_sending-Advances n _ c s h)

  serve_request-Advances :
      (n : ℕ) (req : Outcome Request) (s : System) (c : Connection)
      → req ≢ diverged
      → length c.input < n
      → Advances n (serve_request crates to_string it req s c)
  unfolding serve_request send_response
  serve_request-Advances n (ok req) s c ends h =
      answer-Advances n (handle_request to_string it req s).0 (handle_request to_string it req s).1
        c (handle_request-answers to_string it req s) h
  serve_request-Advances n (err e) s c ends h = after_sending-Advances n _ c s h
  serve_request-Advances n panic s c ends h = λ p. cc
  serve_request-Advances n diverged s c ends h = absurd (ends refl)

  serve_message-Advances :
      (n msg_len : ℕ) (s : System) (c : Connection)
      → length c.input < n
      → Advances n (serve_message crates to_string it msg_len s c)
  unfolding serve_message
  serve_message-Advances n msg_len s c h = elim (Bool-cases (ltb (length c.input) msg_len)) [
    | inl short ↦ rw short (λ p. cc)
    | inr whole ↦ rw whole (
        serve_request-Advances n (decode_request crates (take msg_len c.input)) s
          (record c { input = drop msg_len c.input })
          (decode_request-ne-diverged crates (take msg_len c.input))
          (omega (arith, length-drop msg_len c.input)))
  ]

  serve_turn-Advances :
      (c : Connection) (s : System) → Advances (length c.input) (serve_turn crates to_string it c s)
  unfolding serve_turn
  serve_turn-Advances c s = elim (Bool-cases (ltb (length c.input) 4)) [
    | inl short ↦ rw short (end_of_stream-ne-diverged c.at_end)
    | inr whole ↦ rw whole (
        serve_message-Advances (length c.input) (from_be_bytes (take 4 c.input)) s
          (record c { input = drop 4 c.input }) (ground (arith, length-drop 4 c.input, whole)))
  ]

  serve_turns-ne-diverged :
      (fuel : ℕ) (c : Connection) (s : System)
      → length c.input < fuel
      → (serve_turns crates to_string it fuel c s).0 ≢ diverged
  unfolding serve_turns
  serve_turns-ne-diverged zero c s enough = absurd (omega arith)
  serve_turns-ne-diverged (suc fuel) c s enough =
      follow (serve_turn crates to_string it c s) (serve_turn-Advances c s)
        (λ c' s' h. serve_turns-ne-diverged fuel c' s' (omega arith))
    where
      follow :
          (t : Turn)
          → Advances (length c.input) t
          → ((c' : Connection) (s' : System)
              → length c'.input < length c.input
              → (serve_turns crates to_string it fuel c' s').0 ≢ diverged)
          → (after_turn t (serve_turns crates to_string it fuel)).0 ≢ diverged
      follow (again c' s') h rest = rest c' s' h
      follow (leave r c' s') h rest = h

  -- On every input, whatever becomes of the writes and of the system calls, the fuel of a connection
  -- is enough: the loop ends.
  pub handle_connection-ne-diverged :
      (c : Connection) (s : System) → (handle_connection crates to_string it c s).0 ≢ diverged
  unfolding handle_connection
  handle_connection-ne-diverged c s =
      serve_turns-ne-diverged (suc (length c.input)) c s (omega arith)
