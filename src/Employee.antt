-- ===== src/Employee.antt =====
-- The data of core/employee_service.py: branches, employees, their access to readers, and what the
-- service calls of the readers.
pub mod Service
pub mod Roaming
pub mod Offboard
pub mod Directory
pub mod AccessLists
pub mod Transfers
pub mod Grants
pub mod Recording
pub mod Removal
pub mod Deletions
pub mod Recorded
use pumo_bio_metric.Prelude.{
  ℕ, Bool, true, false, ◌||◌, List, [], ◌∷◌, ◌++◌, map, ◌==◌, if◌then◌else◌, Option, none, some,
  find?, ok, err, Result,
}
use pumo_bio_metric.Text.{Text, codes, same, strip, lower}
use pumo_bio_metric.Text.Numbers.{str}
use pumo_bio_metric.Dict
use pumo_bio_metric.Dict.{Dict}
use pumo_bio_metric.Device.{DeviceInfo}
use pumo_bio_metric.Sim.{SimState, SimError, DeleteReply, delete_device_user_simulated}
use pumo_bio_metric.Migration.{
  PinCheck, MigrateRequest, MigrationResult, resolve_target_pin_simulated,
  migrate_single_user_simulated,
}

pub record BranchDevice : Type 0 where
  pub sn : Text
  pub name : Text
  pub ip : Text
  pub port : ℕ

pub record Branch : Type 0 where
  pub id : ℕ
  pub code : Text
  pub name : Text
  pub devices : List BranchDevice

-- `info = registered.get(sn, {...})` and the fields read from it, with their defaults
unfoldable pub branch_device : Dict DeviceInfo → Text → BranchDevice
branch_device registry sn = elim (Dict.get registry sn) [
  | some info ↦ record {
    sn = sn;
    name = elim info.name [ some name ↦ name | none ↦ sn ];
    ip = info.ip;
    port = elim info.port [ some port ↦ port | none ↦ 4370 ];
  }
  | none ↦ record { sn = sn; name = codes "Reader (" ++ (sn ++ codes ")"); ip = []; port = 4370 }
]

abbrev branch : Dict DeviceInfo → ℕ → Text → Text → Text → Branch
branch registry id code name sn = record {
  id = id;
  code = code;
  name = name;
  devices = branch_device registry sn ∷ [];
}

-- `get_branches`, over `DEFAULT_BRANCHES`
unfoldable pub get_branches : Dict DeviceInfo → List Branch
unfolding branch_device
get_branches registry =
    branch registry 1 (codes "BR-01") (codes "Main Campus (HQ)") (codes "NFZ8254900401")
    ∷ branch registry 2 (codes "BR-02") (codes "Floor 2 / City Branch") (codes "UFZ9876543210")
    ∷ branch registry 3 (codes "BR-03") (codes "Annex / Workshop") (codes "NFZ8242802542")
    ∷ branch registry 4 (codes "BR-04") (codes "Regional Center") (codes "ZK1")
    ∷ []

-- `{b["id"]: b for b in get_branches()}.get(id)`
unfoldable pub branch_of : ℕ → List Branch → Option Branch
branch_of id = find? (λ (b : Branch). b.id == id)

pub record Access : Type 0 where
  pub device_sn : Text
  pub pin : Text
  pub primary : Bool
  pub biometrics_cleared : Bool

-- An entry of `transferHistory`.
pub record Transfer : Type 0 where
  pub from_branch_id : ℕ
  pub from_branch_name : Text
  pub to_branch_id : ℕ
  pub to_branch_name : Text
  pub effective_date : Text
  pub reason : Text
  pub biometric_transferred : Bool
  pub biometric_mode : Option Text
  pub biometric_ok : Bool

-- An entry of `deviceResults`.
pub record DeviceResult : Type 0 where
  pub device_sn : Text
  pub pin : Text
  pub is_ok : Bool
  pub deleted : Bool

-- An entry of `offboardHistory`.
pub record Offboarding : Type 0 where
  pub timestamp : Text
  pub action : Text
  pub delete_mode : Text
  pub device_results : List DeviceResult

pub record Employee : Type 0 where
  pub id : ℕ
  pub employee_code : Text
  pub name : Text
  pub role : Text
  pub branch_id : ℕ
  pub department : Text
  pub access : List Access
  pub transfer_history : List Transfer
  pub status : Option Text
  pub terminated_date : Option Text
  pub offboard_history : List Offboarding

-- `str(e["id"]) == target or str(e.get("employeeCode", "")).lower() == target.lower()`
unfoldable pub matches : Text → Employee → Bool
matches target e = same (str e.id) target || same (lower e.employee_code) (lower target)

-- The object that a service call finds: `next((e for e in employees if ...), None)`.
unfoldable pub find_employee : Text → List Employee → Option Employee
find_employee employee_id = find? (matches (strip employee_id))

-- `get_employee_by_id`
unfoldable pub get_employee_by_id : Text → List Employee → Option Employee
unfolding find_employee
get_employee_by_id = find_employee

abbrev pub on_device : Text → Access → Bool
on_device sn a = same a.device_sn sn

-- The PIN that an employee has on a reader: that of the access entry, or the employee's id.
unfoldable pub pin_on : Text → Employee → Text
pin_on sn e = elim (find? (on_device sn) e.access) [ some a ↦ a.pin | none ↦ str e.id ]

-- What a deletion on a reader reports: `res.get("ok", False)` and `res.get("deleted", False)`.
pub record Deletion : Type 0 where
  pub is_ok : Bool
  pub deleted : Bool

-- What the service calls of core/device_migration.py, with the readers as its state: the
-- simulated readers for `simulate=True`, and the hardware for `simulate=False`.
pub record Readers : Type 1 where
  pub State : Type 0
  -- `resolve_target_pin(sn, pin, user_name=name)`
  pub resolve_pin : Text → Text → Text → State → PinCheck × State
  -- `migrate_single_user_*` with the ports of the source and the target
  pub migrate : MigrateRequest → ℕ → ℕ → State → MigrationResult × State
  -- `delete_device_user` with the port and `delete_biometrics_only`
  pub delete_user : Text → Text → ℕ → Bool → State → Deletion × State

abbrev pub to_deletion : Result SimError DeleteReply → Deletion
to_deletion (ok r) = record { is_ok = true; deleted = r.deleted }
to_deletion (err e) = record { is_ok = false; deleted = false }

-- `simulate=True`
abbrev pub simulated : Dict DeviceInfo → Readers
simulated registry = record {
  State = SimState;
  resolve_pin = λ sn pin name s. (resolve_target_pin_simulated registry sn pin (some name) s, s);
  migrate = λ r source_port target_port s. migrate_single_user_simulated registry r s;
  delete_user = λ sn pin port only s.
      let (r, s') = delete_device_user_simulated registry sn pin only s in (to_deletion r, s');
}
