-- ===== src/Router/Routes.antt =====
-- The routes of app/router/migration.py.
use pumo_bio_metric.Prelude.{
  ℕ, ◌+◌, Bool, List, [], ◌∷◌, ◌++◌, if◌then◌else◌, Option, none, some, all,
}
use pumo_bio_metric.Text.{Text, codes, same, is_empty}
use pumo_bio_metric.Dict.{Dict}
use pumo_bio_metric.Device.{DeviceInfo, get_registered_devices}
use pumo_bio_metric.Migration.{MigrationResult, is_ok}
use pumo_bio_metric.Router.Json.{Json}
use pumo_bio_metric.Router.Body.{◌>>=◌, read_body, Response, answered, status_of, handle}
use pumo_bio_metric.Router.Engine.{
  Engine, MigrationCall, TransferCall, CreateCall, ReaderCall, DeleteCall, PinCall,
}
use pumo_bio_metric.Router.Calls.{
  Doomed, many, one, read_create_user, read_reader, read_run, read_delete, read_delete_batch,
  read_transfer_user, read_resolve_pin,
}
use pumo_bio_metric.Router.Replies.{
  Content, result, deletion, summary, one_result, no_result, devices, reset_done, DeviceUser,
  insert_user, drop_user, listed_devices,
}

-- What the routes act on: the readers, and the table biometric_device_users.
pub record World (E : Engine) : Type 0 where
  pub readers : E.State
  pub users : List DeviceUser

-- `sum(r.get("fingersTransferred", 0) for r in results)`
unfoldable pub templates : List MigrationResult → ℕ
templates [] = 0
templates (r ∷ rs) = r.fingers_transferred + templates rs

-- `tgt_map = {user_id: target_pin} if target_pin else None` and the call of `run_migration`
unfoldable pub migration_call : TransferCall → MigrationCall
migration_call c = record {
  source_id = c.source_id;
  source_port = c.source_port;
  target_id = c.target_id;
  target_port = c.target_port;
  user_ids = c.user_id ∷ [];
  mode = c.mode;
  simulate = c.simulate;
  timeout = c.timeout;
  target_pin = elim c.target_pin [ some pin ↦ some (c.user_id, pin) | none ↦ none ];
}

-- `res.get("name") or res.get("userName") or f"User {user_id}"`; a result has no `name`
unfoldable pub name_of : TransferCall → MigrationResult → Text
name_of c r = if is_empty r.user_name then codes "User " ++ c.user_id else r.user_name

-- `str(res.get("targetUserId") or target_pin or user_id)`; `to_dict` puts `userId` for an empty
-- `targetUserId`
unfoldable pub pin_of : TransferCall → MigrationResult → Text
pin_of c r =
    let given : Text = elim c.target_pin [ some pin ↦ pin | none ↦ c.user_id ] in
    if is_empty r.target_user_id
    then if is_empty r.user_id then given else r.user_id
    else r.target_user_id

-- The statements of `/transfer-user`, in one transaction; a failure of the database is only logged.
unfoldable pub record_transfer :
    Bool → TransferCall → MigrationResult → List DeviceUser → List DeviceUser
record_transfer works c r users =
    let inserted = insert_user c.target_id (pin_of c r) (name_of c r) users in
    if works
    then if same c.mode (codes "move") then drop_user c.source_id c.user_id inserted else inserted
    else users

pub data Request : Type 0 where
  create_user test_connection users run delete delete_batch resolve_pin : Option Json → Request
  -- whether the database works, and the body
  transfer_user : Bool → Option Json → Request
  -- device_registry.json
  list_devices : Option (Dict DeviceInfo) → Request
  reset_sim : Request

module _ (E : Engine) where
  abbrev pub Handled : Type 0
  Handled = Response (Content E) × World E

  -- A call of the engine whose result is the reply.
  abbrev pub reply_with : (World E → E.Reply × E.State) → World E → Handled
  reply_with call w =
      let (r, s) = call w in (answered (status_of (E.is_ok r)) (result r), record w { readers = s })

  abbrev pub delete_with : (World E → E.Reply × E.State) → World E → Handled
  delete_with call w =
      let (r, s) = call w in
      (answered (status_of (E.is_ok r)) (deletion r (E.is_ok r)), record w { readers = s })

  unfoldable pub call_create_user : CreateCall → World E → Handled
  call_create_user c = reply_with (λ w. E.create_device_user c w.readers)

  unfoldable pub call_test_connection : ReaderCall → World E → Handled
  call_test_connection c = reply_with (λ w. E.probe_device_connection c w.readers)

  unfoldable pub call_users : ReaderCall → World E → Handled
  call_users c = reply_with (λ w. E.fetch_device_users c w.readers)

  unfoldable pub call_resolve_pin : PinCall → World E → Handled
  call_resolve_pin c = reply_with (λ w. E.resolve_target_pin c w.readers)

  unfoldable pub call_run : MigrationCall → World E → Handled
  call_run c w =
      let (rs, s) = E.run_migration c w.readers in
      (
        answered (if all is_ok rs then 200 else 207) (summary (all is_ok rs) (templates rs) rs),
        record w { readers = s },
      )

  unfoldable pub call_delete_batch : DeleteCall (List Text) → World E → Handled
  call_delete_batch c = delete_with (λ w. E.delete_batch_device_users c w.readers)

  unfoldable pub call_delete : Doomed → World E → Handled
  call_delete (many c) w = call_delete_batch c w
  call_delete (one c) w = delete_with (λ w. E.delete_device_user c w.readers) w

  -- `/transfer-user` from the results on
  unfoldable pub after_transfer : Bool → TransferCall → List MigrationResult → World E → Handled
  after_transfer works c [] w = (answered 500 no_result, w)
  after_transfer works c (r ∷ _) w = (
    answered (status_of (is_ok r)) (one_result r),
    if is_ok r then record w { users = record_transfer works c r w.users } else w,
  )

  unfoldable pub call_transfer_user : Bool → TransferCall → World E → Handled
  call_transfer_user works c w =
      let (rs, s) = E.run_migration (migration_call c) w.readers in
      after_transfer works c rs (record w { readers = s })

  unfoldable pub serve : (Json → Text) → Request → World E → Handled
  serve repr (create_user b) = handle (read_body b >>= read_create_user repr) call_create_user
  serve repr (test_connection b) = handle (read_body b >>= read_reader repr) call_test_connection
  serve repr (users b) = handle (read_body b >>= read_reader repr) call_users
  serve repr (run b) = handle (read_body b >>= read_run repr) call_run
  serve repr (delete b) = handle (read_body b >>= read_delete repr) call_delete
  serve repr (delete_batch b) = handle (read_body b >>= read_delete_batch repr) call_delete_batch
  serve repr (transfer_user works b) =
      handle (read_body b >>= read_transfer_user repr) (call_transfer_user works)
  serve repr (resolve_pin b) = handle (read_body b >>= read_resolve_pin repr) call_resolve_pin
  serve repr (list_devices saved) =
      λ w. (answered 200 (devices (listed_devices (get_registered_devices saved))), w)
  serve repr reset_sim =
      λ w. (answered 200 reset_done, record w { readers = E.reset_simulation_state w.readers })

  -- Requests one after another.
  unfoldable pub serve_all : (Json → Text) → List Request → World E → World E
  serve_all repr [] w = w
  serve_all repr (q ∷ qs) w = serve_all repr qs (serve repr q w).1
