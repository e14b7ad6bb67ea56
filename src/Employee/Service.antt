-- ===== src/Employee/Service.antt =====
-- `transfer_employee` and `grant_multi_branch_access`
use pumo_bio_metric.Prelude.{
  ℕ, Bool, true, false, not, List, [], ◌∷◌, ◌++◌, ◌==◌, if◌then◌else◌, Option, none, some, any,
  filter_by, update_first, Result, ok, err,
}
use pumo_bio_metric.Text.{Text, codes, same, strip, lower, is_empty}
use pumo_bio_metric.Text.Numbers.{str}
use pumo_bio_metric.Dict.{Dict}
use pumo_bio_metric.Device.{DeviceInfo}
use pumo_bio_metric.Migration.{PinCheck, MigrationResult, is_ok}
use pumo_bio_metric.Employee.{
  Branch, BranchDevice, Access, Employee, Readers, matches, find_employee, on_device, pin_on,
  branch_of, get_branches,
}

pub data ServiceError : Type 0 where
  employee_not_found same_branch no_such_branch no_reader_to_copy_from target_required :
      ServiceError

pub record TransferRequest : Type 0 where
  pub employee_id : Text
  pub to_branch_id : ℕ
  pub effective_date : Option Text
  pub reason : Option Text
  pub transfer_biometric : Bool
  pub biometric_mode : Text

-- `biometric_result`
pub data Biometric : Type 0 where
  not_asked : Biometric
  skipped : Biometric
  migrated : MigrationResult → PinCheck → Biometric

-- `biometric_result.get("ok", False) if biometric_result else False`
abbrev pub biometric_ok : Biometric → Bool
biometric_ok not_asked = false
biometric_ok skipped = true
biometric_ok (migrated r c) = is_ok r

-- The mode as the service reads it: anything but "copy" is a move.
unfoldable pub read_mode : Text → Text
unfolding lower strip same
read_mode raw = if same (strip (lower raw)) (codes "copy") then codes "copy" else codes "move"

-- A new entry for the reader, or a change of the entry that is there.
unfoldable pub set_access : Text → (Access → Access) → Access → List Access → List Access
set_access sn change new access =
    if any (on_device sn) access
    then update_first (on_device sn) change access
    else access ++ new ∷ []

abbrev pub new_access : Text → Text → Bool → Access
new_access sn pin primary = record {
  device_sn = sn;
  pin = pin;
  primary = primary;
  biometrics_cleared = false;
}

-- The access list after a successful move.
unfoldable pub moved_access : Text → Text → Text → List Access → List Access
moved_access src_sn tgt_sn pin access =
    set_access tgt_sn (λ a. record a { pin = pin; primary = true }) (new_access tgt_sn pin true)
      (filter_by (λ a. not (on_device src_sn a)) access)

-- The access list after a successful copy.
unfoldable pub copied_access : Text → Text → List Access → List Access
copied_access tgt_sn pin access =
    set_access tgt_sn (λ a. record a { pin = pin }) (new_access tgt_sn pin false) access

abbrev pub devices_of : Option Branch → List BranchDevice
devices_of none = []
devices_of (some b) = b.devices

-- The access list that follows from the biometric result.
unfoldable pub transferred_access :
    Text → List BranchDevice → List BranchDevice → Biometric → List Access → List Access
transferred_access mode (src ∷ _) (tgt ∷ _) (migrated result check) access =
    if is_ok result
    then if same mode (codes "move")
      then moved_access src.sn tgt.sn check.target_pin access
      else copied_access tgt.sn check.target_pin access
    else access
transferred_access mode _ _ _ access = access

-- The employee after the transfer.
abbrev pub transferred_employee :
    TransferRequest → Text → Option Branch → Branch → Biometric → Employee → Employee
transferred_employee r today from to bio emp =
    let mode = read_mode r.biometric_mode in
    record emp {
      access = transferred_access mode (devices_of from) to.devices bio emp.access;
      branch_id = r.to_branch_id;
      transfer_history =
          emp.transfer_history
          ++ (record {
            from_branch_id = emp.branch_id;
            from_branch_name = elim from [
              | some b ↦ b.name
              | none ↦ codes "Branch " ++ str emp.branch_id
            ];
            to_branch_id = r.to_branch_id;
            to_branch_name = to.name;
            effective_date = elim r.effective_date [
              | some d ↦ if is_empty d then today else d
              | none ↦ today
            ];
            reason = elim r.reason [
              | some t ↦ if is_empty t then codes "Transferred to new campus" else t
              | none ↦ codes "Transferred to new campus"
            ];
            biometric_transferred = r.transfer_biometric;
            biometric_mode = if r.transfer_biometric then some mode else none;
            biometric_ok = biometric_ok bio;
          }
              ∷ []);
    }

-- The directory file and the readers.
pub record World (R : Readers) : Type 0 where
  pub directory : List Employee
  pub readers : R.State

module _ (R : Readers) where
  -- The migration of one employee from the reader `src` to the reader `tgt`.
  unfoldable pub migrate_employee :
      Employee → BranchDevice → BranchDevice → Text → R.State → Biometric × R.State
  migrate_employee emp src tgt mode s =
      let (check, s') = R.resolve_pin tgt.sn (pin_on src.sn emp) emp.name s in
      let (result, s'') =
        R.migrate
          (record {
            source_id = src.sn;
            target_id = tgt.sn;
            user_id = pin_on src.sn emp;
            mode = mode;
            target_user_id = some check.target_pin;
          })
          src.port tgt.port s' in
      (migrated result check, s'')

  -- The part of `transfer_employee` under `if transfer_biometric`: the first reader of each branch.
  unfoldable pub transfer_biometric :
      Employee → Text → List BranchDevice → List BranchDevice → R.State → Biometric × R.State
  transfer_biometric emp mode [] _ s = (skipped, s)
  transfer_biometric emp mode (_ ∷ _) [] s = (skipped, s)
  transfer_biometric emp mode (src ∷ _) (tgt ∷ _) s = migrate_employee emp src tgt mode s

  -- The biometric part, if it is asked for.
  unfoldable pub biometric_step :
      TransferRequest → Option Branch → Branch → Employee → R.State → Biometric × R.State
  biometric_step r from to emp s =
      if r.transfer_biometric
      then transfer_biometric emp (read_mode r.biometric_mode) (devices_of from) to.devices s
      else (not_asked, s)

  -- What follows once the employee and the destination are known.
  unfoldable pub transfer_to :
      TransferRequest
      → Text
      → Option Branch
      → Branch
      → Employee
      → World R
      → Result ServiceError (Employee × Biometric) × World R
  transfer_to r today from to emp w =
      let (bio, readers') = biometric_step r from to emp w.readers in
      let emp' = transferred_employee r today from to bio emp in
      (
        ok (emp', bio),
        record {
          directory = update_first (matches (strip r.employee_id)) (λ _. emp') w.directory;
          readers = readers';
        },
      )

  unfoldable pub transfer_checked :
      TransferRequest
      → Text
      → Option Branch
      → Option Branch
      → Employee
      → World R
      → Result ServiceError (Employee × Biometric) × World R
  transfer_checked r today from none emp w = (err no_such_branch, w)
  transfer_checked r today from (some to) emp w = transfer_to r today from to emp w

  unfoldable pub transfer_found :
      Dict DeviceInfo
      → TransferRequest
      → Text
      → Option Employee
      → World R
      → Result ServiceError (Employee × Biometric) × World R
  transfer_found registry r today none w = (err employee_not_found, w)
  transfer_found registry r today (some emp) w =
      if emp.branch_id == r.to_branch_id
      then (err same_branch, w)
      else transfer_checked r today (branch_of emp.branch_id (get_branches registry))
          (branch_of r.to_branch_id (get_branches registry)) emp w

  -- `transfer_employee`, on the day `today`
  unfoldable pub transfer_employee :
      Dict DeviceInfo
      → TransferRequest
      → Text
      → World R
      → Result ServiceError (Employee × Biometric) × World R
  transfer_employee registry r today w =
      transfer_found registry r today (find_employee r.employee_id w.directory) w
