-- ===== src/Server/Handler/Replies.antt =====
-- The answers of `Server::handle_request` of src/server/server.rs.
use peach_db.Base.{◌≡◌, refl, Option, none, some, List, [], ◌∷◌}
use peach_db.Base.HashMap
use peach_db.Base.HashMap.{HashMap, key_eq, key_eq_refl}
use peach_db.Base.Words.{Bytes}
use peach_db.Error.{ok, PeachDbError}
use peach_db.Dtypes.Key.{Key}
use peach_db.Dtypes.Field.{Field}
use peach_db.Db.System.{System, Fate, done, fails}
use peach_db.Db.FileHandler.{append, sync_all}
use peach_db.Db.Wal.{append_entry}
use peach_db.Db.Database.{Iteration, found, get, set_key, delete_key, keys, put_field, drop_field}
use peach_db.Db.WalCodec.{set, delete}
use peach_db.Db.Database.Durable.{append_entry-logged}
use peach_db.Db.Database.Memory.{get-set_key, get-delete_key}
use peach_db.Server.Protocol.{Request, Response, ok_response, not_found}
use peach_db.Server.Handler.{
  handle_request, respond_get, respond_set, respond_delete, respond_keys, error_response,
}

module _ (to_string : PeachDbError → Bytes) (it : Iteration) where
  respond_found : (o : Option Field) → (r : Response) × (respond_get to_string (found o) ≡ ok r)
  unfolding respond_get error_response
  respond_found none = (not_found, refl)
  respond_found (some field) = (ok_response (some field), refl)

  -- Every request is answered by a response, whatever becomes of the system calls.
  pub handle_request-answers :
      (request : Request) (s : System)
      → (r : Response) × ((handle_request to_string it request s).0 ≡ ok r)
  unfolding handle_request respond_set respond_delete respond_keys get set_key delete_key keys
      append_entry append sync_all
  handle_request-answers Request.ping s = (ok_response none, refl)
  handle_request-answers (Request.get key) s = respond_found (HashMap.get key s.fields)
  handle_request-answers Request.keys s =
      (Response.keys (HashMap.keys (it.order Field s.fields)), refl)
  handle_request-answers (Request.set key field) s = go s.fates
    where
      go :
          (fates : List Fate)
          → (r : Response) × ((handle_request to_string it
                (Request.set key field)
                (record s { fates = fates })).0
              ≡ ok r)
      go [] = (ok_response none, refl)
      go (done ∷ []) = (ok_response none, refl)
      go (done ∷ done ∷ fates) = (ok_response none, refl)
      go (done ∷ fails kind n ∷ fates) = (_, refl)
      go (fails kind n ∷ fates) = (_, refl)
  handle_request-answers (Request.del key) s = go s.fates
    where
      go :
          (fates : List Fate)
          → (r : Response) × ((handle_request to_string it
                (Request.del key)
                (record s { fates = fates })).0
              ≡ ok r)
      go [] = (ok_response none, refl)
      go (done ∷ []) = (ok_response none, refl)
      go (done ∷ done ∷ fates) = (ok_response none, refl)
      go (done ∷ fails kind n ∷ fates) = (_, refl)
      go (fails kind n ∷ fates) = (_, refl)

  set_key-ok :
      (key : Key) (field : Field) (s : System) → s.fates ≡ [] → (set_key key field s).0 ≡ ok tt
  unfolding set_key
  set_key-ok key field s calm = rw (append_entry-logged (set key field) s calm)

  delete_key-ok : (key : Key) (s : System) → s.fates ≡ [] → (delete_key key s).0 ≡ ok tt
  unfolding delete_key
  delete_key-ok key s calm = rw (append_entry-logged (delete key) s calm)

  -- A change whose entry was logged is stored, and then answered.
  pub handle_request-append_entry :
      (key : Key) (field : Field) (s : System)
      → (append_entry (set key field) s).0 ≡ ok tt
      → handle_request to_string it (Request.set key field) s
        ≡ (ok (ok_response none), put_field key field (append_entry (set key field) s).1)
  unfolding handle_request respond_set set_key
  handle_request-append_entry key field s h = rw h

  pub handle_request-append_entry_del :
      (key : Key) (s : System)
      → (append_entry (delete key) s).0 ≡ ok tt
      → handle_request to_string it (Request.del key) s
        ≡ (ok (ok_response none), drop_field key (append_entry (delete key) s).1)
  unfolding handle_request respond_delete delete_key
  handle_request-append_entry_del key s h = rw h

  -- A `Del` whose system calls succeed answers `Ok`, whether or not the key was held, and the `Get`
  -- of the key that follows answers `NotFound`.
  pub handle_request-del-get :
      (key : Key) (s : System)
      → s.fates ≡ []
      → ((handle_request to_string it (Request.del key) s).0 ≡ ok (ok_response none))
        × ((handle_request to_string it
              (Request.get key)
              (handle_request to_string it (Request.del key) s).1).0
            ≡ ok not_found)
  unfolding handle_request respond_delete respond_get error_response
  handle_request-del-get key s calm = (
    rw (delete_key-ok key s calm),
    rw (get-delete_key key s key (delete_key-ok key s calm), key_eq_refl key),
  )

  -- A `Set` whose system calls succeed answers `Ok`, and the `Get` of the key that follows answers
  -- the value.
  pub handle_request-set-get :
      (key : Key) (field : Field) (s : System)
      → s.fates ≡ []
      → ((handle_request to_string it (Request.set key field) s).0 ≡ ok (ok_response none))
        × ((handle_request to_string it
              (Request.get key)
              (handle_request to_string it (Request.set key field) s).1).0
            ≡ ok (ok_response (some field)))
  unfolding handle_request respond_set respond_get
  handle_request-set-get key field s calm = (
    rw (set_key-ok key field s calm),
    rw (get-set_key key s field key (set_key-ok key field s calm), key_eq_refl key),
  )
