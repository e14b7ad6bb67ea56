-- ===== src/Tests/Data.antt =====
-- The readers, the requests and the employee of the tests.
use pumo_bio_metric.Prelude.{List, [], ◌∷◌, Option, none, some, true, false, Result, ok, err}
use pumo_bio_metric.Text.{Text, codes}
use pumo_bio_metric.Device.{DeviceInfo, default_registry}
use pumo_bio_metric.Sim.{
  CreateRequest, SimState, SimUser, reset_simulation_state, create_device_user_simulated,
}
use pumo_bio_metric.Migration.{
  MigrateRequest, MigrationResult, PinCheck, migrate_single_user_simulated,
  resolve_target_pin_simulated,
}
use pumo_bio_metric.Employee.{
  Branch, BranchDevice, branch_device, Employee, Readers, Deletion, DeviceResult, simulated,
}
use pumo_bio_metric.Employee.Service.{
  ServiceError, TransferRequest, skipped, World, transfer_employee,
}
use pumo_bio_metric.Employee.Roaming.{
  GrantRequest, grant_multi_branch_access, revoke_employee_device_access,
}
use pumo_bio_metric.Employee.Offboard.{FireRequest, fire_employee, delete_employee_permanently}

abbrev pub serial_1 : Text
serial_1 = codes "NFZ8254900401"

abbrev pub serial_2 : Text
serial_2 = codes "UFZ9876543210"

abbrev pub pin_102 : Text
pin_102 = codes "102"

abbrev pub pin_9999 : Text
pin_9999 = codes "9999"

abbrev pub today : Text
today = codes "2026-01-31"

abbrev pub move : Text
move = codes "move"

abbrev request : Text → Text → Option Text → MigrateRequest
request target user wanted = record {
  source_id = serial_1;
  target_id = target;
  user_id = user;
  mode = move;
  target_user_id = wanted;
}

-- A move onto a PIN that somebody else has.
abbrev pub move_gowtham : MigrateRequest
move_gowtham = request serial_2 pin_102 (some pin_9999)

abbrev pub move_nobody : MigrateRequest
move_nobody = request serial_2 (codes "500") none

-- A move to the reader itself.
abbrev pub move_home : MigrateRequest
move_home = request (codes "ZK1") pin_102 none

abbrev pub readers : SimState
readers = reset_simulation_state

abbrev new_request : Text → CreateRequest
new_request pin = record {
  device_id = serial_2;
  user_id = pin;
  name = codes "Asha";
  port = 4370;
  privilege = 0;
  password = [];
  card = 0;
  ip_override = none;
}

abbrev pub create_asha : CreateRequest
create_asha = new_request (codes " 103 ")

abbrev pub create_again : CreateRequest
create_again = new_request pin_9999

abbrev pub gowtham : Employee
gowtham = record {
  id = 7;
  employee_code = codes "EMP-102";
  name = codes "Gowtham";
  role = codes "Trainer";
  branch_id = 1;
  department = codes "Floor";
  access =
      record { device_sn = serial_1; pin = pin_102; primary = true; biometrics_cleared = false }
      ∷ [];
  transfer_history = [];
  status = none;
  terminated_date = none;
  offboard_history = [];
}

abbrev pub asha : Employee
asha = record gowtham { id = 8; employee_code = codes "EMP-103"; name = codes "Asha"; access = [] }

abbrev pub service : Readers
service = simulated default_registry

abbrev pub world : World service
world = record { directory = gowtham ∷ asha ∷ []; readers = reset_simulation_state }

abbrev pub transfer_request : TransferRequest
transfer_request = record {
  employee_id = codes "emp-102";
  to_branch_id = 2;
  effective_date = none;
  reason = none;
  transfer_biometric = true;
  biometric_mode = move;
}

abbrev pub transfer_home : TransferRequest
transfer_home = record transfer_request { to_branch_id = 1 }

abbrev pub grant_request : GrantRequest
grant_request = record {
  employee_id = codes "7";
  target_branch_id = some 2;
  target_device_sn = none;
}

abbrev pub fire_request : FireRequest
fire_request = record {
  employee_id = codes "7";
  action = codes "fire_all";
  device_sn = none;
  delete_mode = codes "full";
}

abbrev pub fire_unnamed : FireRequest
fire_unnamed = record fire_request { action = codes "delete_device" }

-- The value of a call that was not refused.
abbrev reached {ℓ} : {A : Type ℓ} → A → Result ServiceError A → A
reached a (ok b) = b
reached a (err _) = a

abbrev pub check : PinCheck
check =
    resolve_target_pin_simulated default_registry serial_2 pin_102 (some (codes "Gowtham")) readers

abbrev pub result : MigrationResult
result =
    (migrate_single_user_simulated default_registry
      (record {
        source_id = serial_1;
        target_id = serial_2;
        user_id = pin_102;
        mode = move;
        target_user_id = some pin_102;
      })
      readers).0

abbrev pub world_moved : World service
world_moved = (transfer_employee service default_registry transfer_request today world).1

abbrev pub gowtham_moved : Employee
gowtham_moved =
    (reached (gowtham, skipped)
      (transfer_employee service default_registry transfer_request today world).0).0

abbrev pub copy_result : MigrationResult
copy_result =
    (migrate_single_user_simulated default_registry
      (record {
        source_id = serial_1;
        target_id = serial_2;
        user_id = pin_102;
        mode = codes "copy";
        target_user_id = some pin_102;
      })
      readers).0

abbrev pub world_granted : World service
world_granted = (grant_multi_branch_access service default_registry grant_request world).1

abbrev pub gowtham_granted : Employee
gowtham_granted =
    (reached (gowtham, skipped)
      (grant_multi_branch_access service default_registry grant_request world).0).0

abbrev pub deletion : Deletion
deletion = record { is_ok = true; deleted = true }

abbrev pub world_revoked : World service
world_revoked =
    (revoke_employee_device_access service default_registry (codes "7") serial_1 false world).1

abbrev pub gowtham_revoked : Employee
gowtham_revoked =
    (reached (gowtham, deletion)
      (revoke_employee_device_access service default_registry (codes "7") serial_1 false world).0).0

abbrev pub world_fired : World service
world_fired = (fire_employee service default_registry fire_request today world).1

abbrev pub gowtham_fired : Employee
gowtham_fired =
    (reached (gowtham, []) (fire_employee service default_registry fire_request today world).0).0

abbrev pub fire_results : List DeviceResult
fire_results = record { device_sn = serial_1; pin = pin_102; is_ok = true; deleted = true } ∷ []

abbrev pub world_unnamed : World service
world_unnamed = (fire_employee service default_registry fire_unnamed today world).1

abbrev pub gowtham_unnamed : Employee
gowtham_unnamed =
    (reached (gowtham, []) (fire_employee service default_registry fire_unnamed today world).0).0

abbrev pub world_deleted : World service
world_deleted =
    (delete_employee_permanently service default_registry (codes "7") true today world).1

abbrev pub gowtham_on_reader : SimUser
gowtham_on_reader = record {
  uid = 2;
  user_id = pin_102;
  name = codes "Gowtham";
  privilege = 0;
  password = [];
  group_id = codes "1";
  card = 0;
  fingers =
      record { fid = 0; valid = 1; template = codes "TEMPLATE_FINGER_0_USER_102_SAMPLE" } ∷ [];
  finger_count = none;
}

abbrev pub asha_on_reader : SimUser
asha_on_reader = record gowtham_on_reader {
  user_id = codes "103";
  name = codes "Asha";
  fingers = [];
}

abbrev pub readers_created : SimState
readers_created = (create_device_user_simulated default_registry create_asha readers).1

abbrev pub info : DeviceInfo
info = record {
  sn = serial_1;
  ip = codes "192.168.0.210";
  port = some 4370;
  name = some (codes "eSSL SilkBio-101TC (NFZ8254900401)");
}

abbrev pub reader_1 : BranchDevice
reader_1 = branch_device default_registry serial_1

abbrev pub reader_2 : BranchDevice
reader_2 = branch_device default_registry serial_2

abbrev pub branch_1 : Branch
branch_1 = record {
  id = 1;
  code = codes "BR-01";
  name = codes "Main Campus (HQ)";
  devices = reader_1 ∷ [];
}

abbrev pub branch_2 : Branch
branch_2 = record {
  id = 2;
  code = codes "BR-02";
  name = codes "Floor 2 / City Branch";
  devices = reader_2 ∷ [];
}
