-- ===== src/Employee/Roaming.antt =====
-- `grant_multi_branch_access` and `revoke_employee_device_access`
use pumo_bio_metric.Prelude.{
  ℕ, Bool, true, not, List, [], ◌∷◌, ◌==◌, if◌then◌else◌, Option, none, some, filter_by,
  update_first, update_all, Result, ok, err,
}
use pumo_bio_metric.Text.{Text, codes, strip, is_empty}
use pumo_bio_metric.Dict
use pumo_bio_metric.Dict.{Dict}
use pumo_bio_metric.Device.{DeviceInfo}
use pumo_bio_metric.Employee.{
  Branch, BranchDevice, Employee, Readers, Deletion, matches, find_employee, on_device, pin_on,
  branch_of, get_branches,
}
use pumo_bio_metric.Employee.Service.{
  ServiceError, employee_not_found, no_reader_to_copy_from, target_required, Biometric, migrated,
  biometric_ok, copied_access, World, migrate_employee,
}

pub record GrantRequest : Type 0 where
  pub employee_id : Text
  pub target_branch_id : Option ℕ
  pub target_device_sn : Option Text

-- `registered.get(sn, {...}).get("port", 4370)`
unfoldable pub registered_port : Dict DeviceInfo → Text → ℕ
registered_port registry sn = elim (Dict.get registry sn) [
  | none ↦ 4370
  | some info ↦ elim info.port [ some port ↦ port | none ↦ 4370 ]
]

-- A reader by its serial number alone; the service reads only its port besides.
abbrev pub reader_named : Dict DeviceInfo → Text → BranchDevice
reader_named registry sn = record {
  sn = sn;
  name = [];
  ip = [];
  port = registered_port registry sn;
}

abbrev first_device : Option Branch → Option BranchDevice
first_device none = none
first_device (some b) = elim b.devices [ [] ↦ none | d ∷ _ ↦ some d ]

abbrev branch_reader : Dict DeviceInfo → Option ℕ → Option BranchDevice
branch_reader registry none = none
branch_reader registry (some id) =
    if id == 0 then none else first_device (branch_of id (get_branches registry))

-- The reader that a grant names: its serial number, or else the first reader of the branch.
unfoldable pub grant_target : Dict DeviceInfo → GrantRequest → Option BranchDevice
grant_target registry r = elim r.target_device_sn [
  | none ↦ branch_reader registry r.target_branch_id
  | some sn ↦
      if is_empty sn
      then branch_reader registry r.target_branch_id
      else some (reader_named registry sn)
]

-- The part of the directory that the matching employee is.
abbrev pub set_employee : Text → Employee → List Employee → List Employee
set_employee employee_id emp = update_first (matches (strip employee_id)) (λ _. emp)

abbrev pub granted_employee : Text → Biometric → Employee → Employee
granted_employee tgt_sn (migrated result check) emp = record emp {
  access = copied_access tgt_sn check.target_pin emp.access;
}
granted_employee tgt_sn _ emp = emp

-- The employee after a successful deletion on the reader `sn`.
unfoldable pub revoked_employee : Text → Bool → Employee → Employee
revoked_employee sn only emp =
    if only
    then record emp {
      access = update_all (on_device sn) (λ a. record a { biometrics_cleared = true }) emp.access;
    }
    else record emp { access = filter_by (λ a. not (on_device sn a)) emp.access }

module _ (R : Readers) where
  unfoldable pub grant_from :
      GrantRequest
      → Employee
      → BranchDevice
      → BranchDevice
      → World R
      → Result ServiceError (Employee × Biometric) × World R
  grant_from r emp src tgt w =
      let (bio, readers') = migrate_employee R emp src tgt (codes "copy") w.readers in
      let emp' = granted_employee tgt.sn bio emp in
      if biometric_ok bio
      then (
        ok (emp', bio),
        record { directory = set_employee r.employee_id emp' w.directory; readers = readers' },
      )
      else (ok (emp, bio), record { directory = w.directory; readers = readers' })

  unfoldable pub grant_between :
      GrantRequest
      → Employee
      → Option BranchDevice
      → Option BranchDevice
      → World R
      → Result ServiceError (Employee × Biometric) × World R
  grant_between r emp none tgt w = (err no_reader_to_copy_from, w)
  grant_between r emp (some src) none w = (err target_required, w)
  grant_between r emp (some src) (some tgt) w = grant_from r emp src tgt w

  unfoldable pub grant_found :
      Dict DeviceInfo
      → GrantRequest
      → Option Employee
      → World R
      → Result ServiceError (Employee × Biometric) × World R
  grant_found registry r none w = (err employee_not_found, w)
  grant_found registry r (some emp) w =
      grant_between r emp (first_device (branch_of emp.branch_id (get_branches registry)))
        (grant_target registry r) w

  -- `grant_multi_branch_access`. A copy that fails is reported in the result, not as an error.
  unfoldable pub grant_multi_branch_access :
      Dict DeviceInfo
      → GrantRequest
      → World R
      → Result ServiceError (Employee × Biometric) × World R
  grant_multi_branch_access registry r w =
      grant_found registry r (find_employee r.employee_id w.directory) w

  unfoldable pub revoke_found :
      Dict DeviceInfo
      → Text
      → Text
      → Bool
      → Option Employee
      → World R
      → Result ServiceError (Employee × Deletion) × World R
  revoke_found registry employee_id sn only none w = (err employee_not_found, w)
  revoke_found registry employee_id sn only (some emp) w =
      let (d, readers') =
        R.delete_user sn (pin_on sn emp) (registered_port registry sn) only w.readers in
      let emp' = revoked_employee sn only emp in
      if d.is_ok
      then (
        ok (emp', d),
        record { directory = set_employee employee_id emp' w.directory; readers = readers' },
      )
      else (ok (emp, d), record { directory = w.directory; readers = readers' })

  -- `revoke_employee_device_access`
  unfoldable pub revoke_employee_device_access :
      Dict DeviceInfo
      → Text
      → Text
      → Bool
      → World R
      → Result ServiceError (Employee × Deletion) × World R
  revoke_employee_device_access registry employee_id sn only w =
      revoke_found registry employee_id sn only (find_employee employee_id w.directory) w
