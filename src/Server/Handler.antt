-- ===== src/Server/Handler.antt =====
-- `Server::handle_request` of src/server/server.rs.
pub mod Replies
use peach_db.Base.{Option, none, some, List}
use peach_db.Base.Words.{Bytes}
use peach_db.Error.{Outcome, ok, err, panic, diverged, PeachDbError, key_not_found}
use peach_db.Dtypes.Key.{Key}
use peach_db.Dtypes.Field.{Field}
use peach_db.Db.System.{System, Exec}
use peach_db.Db.Database
use peach_db.Db.Database.{Iteration, set_key, delete_key}
use peach_db.Server.Protocol.{Request, Response, ok_response, not_found, server_error}

-- `to_string` of the errors is derived by the crate `thiserror`: it is a parameter.
module _ (to_string : PeachDbError → Bytes) where
  error_response : PeachDbError → Response
  error_response key_not_found = not_found
  error_response e = server_error (to_string e)

  -- The matches on the results of the database's methods.
  respond_get : Outcome Field → Outcome Response
  respond_get (ok field) = ok (ok_response (some field))
  respond_get (err e) = ok (error_response e)
  respond_get panic = panic
  respond_get diverged = diverged

  respond_set : Outcome (Unit {0}) → Outcome Response
  respond_set (ok u) = ok (ok_response none)
  respond_set (err e) = ok (server_error (to_string e))
  respond_set panic = panic
  respond_set diverged = diverged

  respond_delete : Outcome (Unit {0}) → Outcome Response
  respond_delete (ok u) = ok (ok_response none)
  respond_delete (err e) = ok (error_response e)
  respond_delete panic = panic
  respond_delete diverged = diverged

  respond_keys : Outcome (List Key) → Outcome Response
  respond_keys (ok ks) = ok (Response.keys ks)
  respond_keys (err e) = ok (server_error (to_string e))
  respond_keys panic = panic
  respond_keys diverged = diverged

  unfoldable pub handle_request : Iteration → Request → Exec Response
  unfolding respond_get respond_set respond_delete respond_keys error_response
  handle_request it Request.ping s = (ok (ok_response none), s)
  handle_request it (Request.get key) s = let (r, t) = Database.get key s in (respond_get r, t)
  handle_request it (Request.set key field) s =
      let (r, t) = set_key key field s in (respond_set r, t)
  handle_request it (Request.del key) s = let (r, t) = delete_key key s in (respond_delete r, t)
  handle_request it Request.keys s = let (r, t) = Database.keys it s in (respond_keys r, t)
