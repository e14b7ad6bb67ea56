-- ===== src/Employee/Offboard.antt =====
-- `fire_employee_and_wipe_biometrics` and `delete_employee_permanently`
use pumo_bio_metric.Prelude.{
  Bool, not, ◌&&◌, List, [], ◌∷◌, ◌++◌, map, if◌then◌else◌, Option, none, some, filter_by, Result,
  ok, err,
}
use pumo_bio_metric.Text.{Text, codes, same, strip, is_empty}
use pumo_bio_metric.Text.Numbers.{str}
use pumo_bio_metric.Dict.{Dict}
use pumo_bio_metric.Device.{DeviceInfo}
use pumo_bio_metric.Employee.{
  Access, Employee, DeviceResult, Offboarding, Readers, matches, find_employee, on_device, pin_on,
}
use pumo_bio_metric.Employee.Service.{ServiceError, employee_not_found, World}
use pumo_bio_metric.Employee.Roaming.{registered_port, set_employee}

pub record FireRequest : Type 0 where
  pub employee_id : Text
  pub action : Text
  pub device_sn : Option Text
  pub delete_mode : Text

-- `action == "delete_device" and device_sn`
unfoldable pub single_device : FireRequest → Option Text
single_device r = elim r.device_sn [
  | none ↦ none
  | some sn ↦ if same r.action (codes "delete_device") && not (is_empty sn) then some sn else none
]

-- Every reader that the employee is enrolled on, or every registered one.
unfoldable pub all_targets : Dict DeviceInfo → Employee → List (Text × Text)
all_targets registry emp = elim emp.access [
  | [] ↦ map (λ (sn, _). (sn, str emp.id)) registry
  | _ ∷ _ ↦ map (λ (a : Access). (a.device_sn, a.pin)) emp.access
]

-- `target_devices`
unfoldable pub fire_targets : Dict DeviceInfo → FireRequest → Employee → List (Text × Text)
fire_targets registry r emp = elim (single_device r) [
  | some sn ↦ (sn, pin_on sn emp) ∷ []
  | none ↦ all_targets registry emp
]

-- `action == "fire_all"`
unfoldable pub is_fire_all : FireRequest → Bool
is_fire_all r = same r.action (codes "fire_all")

abbrev without_device : Option Text → List Access → List Access
without_device none access = access
without_device (some sn) access = filter_by (λ a. not (on_device sn a)) access

-- The employee after the readers were asked.
unfoldable pub fired_employee : FireRequest → Text → List DeviceResult → Employee → Employee
fired_employee r today results emp =
    let entry : Offboarding = record {
      timestamp = today;
      action = r.action;
      delete_mode = r.delete_mode;
      device_results = results;
    } in
    if is_fire_all r
    then record emp {
      status = some (codes "Terminated");
      terminated_date = some today;
      access = [];
      offboard_history = emp.offboard_history ++ entry ∷ [];
    }
    else record emp {
      access = without_device r.device_sn emp.access;
      offboard_history = emp.offboard_history ++ entry ∷ [];
    }

abbrev pub fire_all : Text → FireRequest
fire_all employee_id = record {
  employee_id = employee_id;
  action = codes "fire_all";
  device_sn = none;
  delete_mode = codes "full";
}

abbrev pub results_of : Result ServiceError (Employee × List DeviceResult) → List DeviceResult
results_of (ok (_, results)) = results
results_of (err _) = []

module _ (R : Readers) where
  -- The loop over `target_devices`.
  unfoldable pub delete_on_each :
      Dict DeviceInfo → Bool → List (Text × Text) → R.State → List DeviceResult × R.State
  delete_on_each registry only [] s = ([], s)
  delete_on_each registry only ((sn, pin) ∷ targets) s =
      let (d, s') = R.delete_user sn pin (registered_port registry sn) only s in
      let (ds, s'') = delete_on_each registry only targets s' in
      (record { device_sn = sn; pin = pin; is_ok = d.is_ok; deleted = d.deleted } ∷ ds, s'')

  unfoldable pub fire_found :
      Dict DeviceInfo
      → FireRequest
      → Text
      → Option Employee
      → World R
      → Result ServiceError (Employee × List DeviceResult) × World R
  fire_found registry r today none w = (err employee_not_found, w)
  fire_found registry r today (some emp) w =
      let (results, readers') =
        delete_on_each registry (same r.delete_mode (codes "biometrics_only"))
          (fire_targets registry r emp) w.readers in
      let emp' = fired_employee r today results emp in
      (
        ok (emp', results),
        record { directory = set_employee r.employee_id emp' w.directory; readers = readers' },
      )

  -- `fire_employee_and_wipe_biometrics`, on the day `today`
  unfoldable pub fire_employee :
      Dict DeviceInfo
      → FireRequest
      → Text
      → World R
      → Result ServiceError (Employee × List DeviceResult) × World R
  fire_employee registry r today w =
      fire_found registry r today (find_employee r.employee_id w.directory) w

  unfoldable pub delete_found :
      Dict DeviceInfo
      → Text
      → Bool
      → Text
      → Option Employee
      → World R
      → Result ServiceError (List DeviceResult) × World R
  delete_found registry employee_id wipe today none w = (err employee_not_found, w)
  delete_found registry employee_id wipe today (some emp) w =
      let remaining = filter_by (λ e. not (matches (strip employee_id) e)) w.directory in
      let (fired, w') = fire_employee registry (fire_all employee_id) today w in
      if wipe
      then (ok (results_of fired), record { directory = remaining; readers = w'.readers })
      else (ok [], record { directory = remaining; readers = w.readers })

  -- `delete_employee_permanently`
  unfoldable pub delete_employee_permanently :
      Dict DeviceInfo
      → Text
      → Bool
      → Text
      → World R
      → Result ServiceError (List DeviceResult) × World R
  delete_employee_permanently registry employee_id wipe today w =
      delete_found registry employee_id wipe today (find_employee employee_id w.directory) w
