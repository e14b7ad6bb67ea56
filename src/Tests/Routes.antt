-- ===== src/Tests/Routes.antt =====
-- The theorems on the routes at concrete inputs.
use pumo_bio_metric.Dict
use pumo_bio_metric.Prelude.{Bool, List, [], any, false, map, none, refl, some, true, ◌∷◌, ◌≡◌}
use pumo_bio_metric.Text.{Text, codes, is_space, lower, lstrip, rstrip, same, strip}
use pumo_bio_metric.Text.Numbers.{digits, pos, str}
use pumo_bio_metric.Device.{default_registry, registered, resolve_device, sim_source}
use pumo_bio_metric.Sim.{sim_device}
use pumo_bio_metric.Sim.State.{IsWellFormed}
use pumo_bio_metric.Migration.{MigrationResult}
use pumo_bio_metric.Router.Json.{
  Json, bool, number, text, array, object, element, no_elements, member, no_members, Members,
  first_true, format, get_or, is_true, iterate, to_int,
}
use pumo_bio_metric.Router.Body.{flag, int_field, ip_field, text_field, word_field}
use pumo_bio_metric.Router.Engine.{Engine, Link, MigrationCall, DeleteCall, TransferCall}
use pumo_bio_metric.Router.Calls.{
  Doomed, biometrics_only, many, one, read_delete, read_delete_batch, read_doomed, read_link,
  read_run, run_ids,
}
use pumo_bio_metric.Router.Replies.{DeviceUser}
use pumo_bio_metric.Router.Routes.{
  World, run, delete, delete_batch, pin_of, record_transfer, reset_sim, serve, serve_all,
}
use pumo_bio_metric.Router.Both.{both}
use pumo_bio_metric.Router.Proper.{IsProper}
use pumo_bio_metric.Router.Statuses.{content_status}
use pumo_bio_metric.Router.Staff.{Staff, get_employee, serve_staff}
use pumo_bio_metric.Router.Staff.Refusals.{staff_status}
use pumo_bio_metric.Router.Responses.{responses-IsProper}
use pumo_bio_metric.Router.Kept.{HasDistinctUsers, serve_all-HasDistinctUsers}
use pumo_bio_metric.Router.Deleting.{IsDeleted, delete-IsDeleted, delete_batch-characters}
use pumo_bio_metric.Router.Running.{IsRun, run-IsRun}
use pumo_bio_metric.Router.Transfers.{entry_of, unplaced_of, record_transfer-entry_of}
use pumo_bio_metric.Tests.Data.{move, pin_102, readers, serial_1, serial_2}

-- An engine for the hardware on which nothing succeeds.
abbrev hardware : Engine
hardware = record {
  State = Unit {0};
  Reply = Bool;
  is_ok = λ b. b;
  create_device_user = λ c s. (false, s);
  probe_device_connection = λ c s. (false, s);
  fetch_device_users = λ c s. (false, s);
  run_migration = λ c s. ([], s);
  delete_device_user = λ c s. (false, s);
  delete_batch_device_users = λ c s. (false, s);
  resolve_target_pin = λ c s. (false, s);
  reset_simulation_state = λ s. s;
}

abbrev engine : Engine
engine = both default_registry [] hardware

-- A service of the employees that refuses everything.
abbrev staff : Staff
staff = record {
  State = Unit {0};
  Reply = Bool;
  is_ok = λ b. b;
  directory = λ s. [];
  transfer_employee = λ c s. (false, s);
  grant_multi_branch_access = λ c s. (false, s);
  revoke_employee_device_access = λ c s. (false, s);
  fire_employee_and_wipe_biometrics = λ c s. (false, s);
  delete_employee_permanently = λ c s. (false, s);
}

abbrev repr : Json → Text
repr v = codes "[]"

abbrev world : World engine
world = record { readers = (readers, tt); users = [] }

abbrev simulate : Members
simulate = member (codes "simulate") (bool true) no_members

abbrev delete_body : Members
delete_body = member (codes "sn") (text serial_1) (member (codes "userId") (text pin_102) simulate)

abbrev batch_body : Members
batch_body = member (codes "sn") (text serial_1) (member (codes "userIds") (text pin_102) simulate)

abbrev run_body : Members
run_body = member (codes "sourceSn") (text serial_1) (
    member (codes "targetSn") (text serial_2)
      (member (codes "userIds") (array (element (number (pos 102)) no_elements)) simulate))

abbrev link : Link
link = record { port = pos 4370; timeout = pos 8; simulate = true }

abbrev delete_call : Doomed
delete_call = one (record {
  device_id = serial_1;
  who = pin_102;
  biometrics_only = false;
  ip_override = none;
  link = link;
})

abbrev batch_call : DeleteCall (List Text)
batch_call = record {
  device_id = serial_1;
  who = codes "1" ∷ codes "0" ∷ codes "2" ∷ [];
  biometrics_only = false;
  ip_override = none;
  link = link;
}

abbrev run_call : MigrationCall
run_call = record {
  source_id = serial_1;
  source_port = pos 4370;
  target_id = serial_2;
  target_port = pos 4370;
  user_ids = pin_102 ∷ [];
  mode = codes "copy";
  simulate = true;
  timeout = pos 8;
  target_pin = none;
}

abbrev transfer_call : TransferCall
transfer_call = record {
  source_id = serial_1;
  source_port = pos 4370;
  target_id = serial_2;
  target_port = pos 4370;
  user_id = pin_102;
  target_pin = none;
  mode = move;
  simulate = true;
  timeout = pos 8;
}

abbrev transfer_result : MigrationResult
transfer_result = record {
  mode = move;
  user_id = pin_102;
  user_name = codes "Gowtham";
  source_ip = serial_1;
  target_ip = serial_2;
  target_user_id = pin_102;
  fingers_transferred = 1;
  error = none;
}

abbrev source_row : DeviceUser
source_row = record {
  device_serial = some serial_1;
  device_user_id = pin_102;
  name = codes "Gowtham";
  role = codes "Normal User";
}

world-HasDistinctUsers : IsWellFormed readers
unfolding any same
world-HasDistinctUsers = record {
  source = (refl, refl, (refl, refl, (refl, refl, tt)));
  target = (refl, refl, tt);
}

responses-IsProper_example :
    IsProper content_status world (serve engine repr (delete (some (object delete_body))) world)
    × IsProper staff_status tt (serve_staff staff repr (get_employee pin_102) tt)
responses-IsProper_example =
    responses-IsProper engine staff repr (delete (some (object delete_body))) world
      (get_employee pin_102) tt

serve_all-HasDistinctUsers_example :
    HasDistinctUsers default_registry [] hardware
      (serve_all engine repr
        (run (some (object run_body)) ∷ delete (some (object delete_body)) ∷ reset_sim ∷ [])
        world).readers
serve_all-HasDistinctUsers_example =
    serve_all-HasDistinctUsers default_registry [] hardware repr
      (run (some (object run_body)) ∷ delete (some (object delete_body)) ∷ reset_sim ∷ []) world
      world-HasDistinctUsers

delete-IsDeleted_example :
    IsDeleted default_registry [] hardware delete_call sim_source world
      (serve engine repr (delete (some (object delete_body))) world)
unfolding read_delete text_field first_true is_true get_or format strip lstrip rstrip is_space same
    read_link int_field to_int flag read_doomed biometrics_only ip_field lower sim_device Dict.get
    resolve_device registered
delete-IsDeleted_example =
    delete-IsDeleted default_registry [] hardware repr delete_body delete_call sim_source world refl
      refl refl

delete_batch-characters_example :
    IsDeleted default_registry [] hardware
      (many (record batch_call { who = map (λ e. e ∷ []) pin_102 }))
      sim_source
      world
      (serve engine repr (delete_batch (some (object batch_body))) world)
unfolding read_delete_batch text_field first_true is_true get_or format strip lstrip rstrip is_space
    same read_link int_field to_int flag biometrics_only ip_field lower sim_device Dict.get
    resolve_device registered iterate
delete_batch-characters_example =
    delete_batch-characters default_registry [] hardware repr batch_body b'1' (codes "02")
      batch_call sim_source world refl refl refl refl

run-IsRun_example :
    IsRun default_registry [] hardware run_call world
      (serve engine repr (run (some (object run_body))) world)
unfolding read_run text_field first_true is_true get_or format strip lstrip rstrip is_space same
    int_field to_int flag word_field lower run_ids iterate str digits
run-IsRun_example = run-IsRun default_registry [] hardware repr run_body run_call world refl refl

record_transfer-entry_of_example :
    (entry_of serial_1 pin_102
        (record_transfer true transfer_call transfer_result (source_row ∷ []))
      ≡ none)
    × (unplaced_of pin_102 (record_transfer true transfer_call transfer_result (source_row ∷ []))
        ≡ none)
unfolding same pin_of
record_transfer-entry_of_example =
    record_transfer-entry_of true transfer_call transfer_result (source_row ∷ []) serial_1 pin_102
