-- ===== src/Employee/Transfers.antt =====
-- `transfer_employee`: refusals, the directory, and the access list.
use pumo_bio_metric.Prelude.{
  ℕ, ◌+◌, ◌≡◌, ◌≢◌, refl, ◌∙◌, ap, inl, inr, Bool, false, ◌&&◌, List, ◌∷◌, ◌==◌, arith,
  if◌then◌else◌, Option, none, some, length, length-append, Option-cases, Bool-cases, ok, err,
}
use pumo_bio_metric.Text.{Text, codes, same}
use pumo_bio_metric.Dict.{Dict}
use pumo_bio_metric.Device.{DeviceInfo}
use pumo_bio_metric.Migration.{MigrationResult, PinCheck, is_ok}
use pumo_bio_metric.Employee.{
  Branch, BranchDevice, Access, Employee, Readers, find_employee, branch_of, get_branches,
}
use pumo_bio_metric.Employee.Service.{
  ServiceError, TransferRequest, Biometric, migrated, World, new_access, read_mode,
  transferred_access, transferred_employee, biometric_step, transfer_to, transfer_checked,
  transfer_found, transfer_employee,
}
use pumo_bio_metric.Employee.Roaming.{set_employee}
use pumo_bio_metric.Employee.Directory.{
  employee_at, SamePerson, set_employee-found, set_employee-other,
}
use pumo_bio_metric.Employee.AccessLists.{
  access_at, access_at-moved_access, access_at-copied_access,
}

module _ (R : Readers) (registry : Dict DeviceInfo) (r : TransferRequest) (today : Text)
    (w w' : World R) where
  transfer_checked-err :
      (e : ServiceError) (from to : Option Branch) (emp : Employee)
      → transfer_checked R r today from to emp w ≡ (err e, w')
      → w' ≡ w
  unfolding transfer_checked transfer_to
  transfer_checked-err e from none emp h = ground (arith, h)
  transfer_checked-err e from (some to) emp h = absurd (ground (arith, h))

  transfer_found-err :
      (e : ServiceError) (o : Option Employee)
      → transfer_found R registry r today o w ≡ (err e, w')
      → w' ≡ w
  unfolding transfer_found
  transfer_found-err e none h = ground (arith, h)
  transfer_found-err e (some emp) h = elim (Bool-cases (emp.branch_id == r.to_branch_id)) [
    | inl here ↦ ground (arith, h, here)
    | inr away ↦ transfer_checked-err e _ _ emp (rw away at h)
  ]

-- A transfer that is refused contacts no reader and changes no employee.
pub transfer_employee-err :
    (R : Readers) (registry : Dict DeviceInfo) (r : TransferRequest) (today : Text) (w w' : World R)
    (e : ServiceError)
    → transfer_employee R registry r today w ≡ (err e, w')
    → w' ≡ w
unfolding transfer_employee
transfer_employee-err R registry r today w w' e h = transfer_found-err R registry r today w w' e _ h

module _ (R : Readers) (registry : Dict DeviceInfo) (r : TransferRequest) (today : Text)
    (w w' : World R) (emp emp' : Employee) (bio : Biometric) where
  -- The branches of a transfer that is not refused.
  transfer_found-ok :
      transfer_found R registry r today (some emp) w ≡ (ok (emp', bio), w')
      → (to : Branch) × (branch_of r.to_branch_id (get_branches registry) ≡ some to)
        × ((emp.branch_id == r.to_branch_id) ≡ false)
        × (transfer_to R r today (branch_of emp.branch_id (get_branches registry)) to emp w
            ≡ (ok (emp', bio), w'))
  unfolding transfer_found transfer_checked
  transfer_found-ok h = elim (Option-cases (branch_of r.to_branch_id (get_branches registry))) [
    | inl nowhere ↦ absurd (ground (arith, h, nowhere))
    | inr (to, there) ↦ (to, there, ground (arith, h, there), ground (arith, h, there))
  ]

  transfer_to-ok :
      (from : Option Branch) (to : Branch)
      → transfer_to R r today from to emp w ≡ (ok (emp', bio), w')
      → (emp' ≡ transferred_employee r today from to bio emp)
        × (bio ≡ (biometric_step R r from to emp w.readers).0)
        × (w'.directory ≡ set_employee r.employee_id emp' w.directory)
        × (w'.readers ≡ (biometric_step R r from to emp w.readers).1)
  unfolding transfer_to
  transfer_to-ok from to h =
      (ground (arith, h), ground (arith, h), ground (arith, h), ground (arith, h))

-- A transfer that is not refused goes to an existing branch other than the employee's own. The
-- directory then has the employee, under the same id, code and name, in the new branch, with one
-- more entry in the history of transfers; every employee with another id is as before.
pub transfer_employee-ok :
    (R : Readers) (registry : Dict DeviceInfo) (r : TransferRequest) (today : Text) (w w' : World R)
    (emp emp' : Employee) (bio : Biometric) (k : ℕ)
    → find_employee r.employee_id w.directory ≡ some emp
    → transfer_employee R registry r today w ≡ (ok (emp', bio), w')
    → k ≢ emp.id
    → (emp.branch_id ≢ r.to_branch_id)
      × (branch_of r.to_branch_id (get_branches registry) ≢ none)
      × (find_employee r.employee_id w'.directory ≡ some emp')
      × SamePerson emp emp'
      × (emp'.name ≡ emp.name)
      × (emp'.branch_id ≡ r.to_branch_id)
      × (length emp'.transfer_history ≡ length emp.transfer_history + 1)
      × (employee_at k w'.directory ≡ employee_at k w.directory)
unfolding transfer_employee
transfer_employee-ok R registry r today w w' emp emp' bio k found h other =
    let (to, there, away, moved) =
      transfer_found-ok R registry r today w w' emp emp' bio (rw found at h) in
    let (e, _, d, _) = transfer_to-ok R registry r today w w' emp emp' bio _ to moved in
    let p : SamePerson emp emp' = record {
      id = ap (λ (x : Employee). x.id) e;
      employee_code = ap (λ (x : Employee). x.employee_code) e;
    } in
    (
      ground (arith, away),
      λ nowhere. ground (arith, there, nowhere),
      rw d (set_employee-found r.employee_id emp emp' w.directory p found),
      p,
      ap (λ (x : Employee). x.name) e,
      ap (λ (x : Employee). x.branch_id) e,
      ap (λ (x : Employee). length x.transfer_history) e ∙ length-append emp.transfer_history _,
      rw d (set_employee-other r.employee_id emp emp' w.directory k p found other),
    )

-- What a search of the access list finds after a migration to `tgt`, where `a` is its new entry.
abbrev pub after_migration :
    Text → BranchDevice → BranchDevice → Bool → Access → List Access → Text → Option Access
after_migration mode src tgt done a access q =
    if done
    then if same tgt.sn q
      then some a
      else if same mode (codes "move") && same src.sn q
      then none
      else access_at q access
    else access_at q access

transferred_access_lem :
    (mode : Text) (src tgt : BranchDevice) (srcs tgts : List BranchDevice)
    (result : MigrationResult) (check : PinCheck) (access : List Access)
    → (a : Access) × (a.pin ≡ check.target_pin)
      × ((q : Text)
          → access_at q
              (transferred_access mode (src ∷ srcs) (tgt ∷ tgts) (migrated result check) access)
            ≡ after_migration mode src tgt (is_ok result) a access q)
unfolding transferred_access
transferred_access_lem mode src tgt srcs tgts result check access =
    elim (Bool-cases (is_ok result)) [
      | inr failed ↦ (new_access tgt.sn check.target_pin false, refl, λ q. rw failed refl)
      | inl done ↦ elim (Bool-cases (same mode (codes "move"))) [
        | inl moving ↦
            let (a, p, _, f) = access_at-moved_access src.sn tgt.sn check.target_pin access in
            (a, p, λ q. rw (done, moving) (f q))
        | inr copying ↦
            let (a, p, f) = access_at-copied_access tgt.sn check.target_pin access in
            (a, p, λ q. rw (done, copying) (f q))
      ]
    ]

-- What a transfer that called the migration records about access, between branches that both have
-- a reader. If the migration failed, the access list finds what it found. If it succeeded, the
-- target reader has an entry with the PIN of the check; a move drops the entry of the source reader
-- unless that is the target reader too; all else is found as before.
pub transfer_employee-access :
    (R : Readers) (registry : Dict DeviceInfo) (r : TransferRequest) (today : Text) (w w' : World R)
    (emp emp' : Employee) (result : MigrationResult) (check : PinCheck) (from to : Branch)
    (src tgt : BranchDevice) (srcs tgts : List BranchDevice)
    → find_employee r.employee_id w.directory ≡ some emp
    → branch_of emp.branch_id (get_branches registry) ≡ some from
    → branch_of r.to_branch_id (get_branches registry) ≡ some to
    → from.devices ≡ src ∷ srcs
    → to.devices ≡ tgt ∷ tgts
    → transfer_employee R registry r today w ≡ (ok (emp', migrated result check), w')
    → (a : Access) × (a.pin ≡ check.target_pin)
      × ((q : Text)
          → access_at q emp'.access
            ≡ after_migration (read_mode r.biometric_mode) src tgt (is_ok result) a emp.access q)
unfolding transfer_employee
transfer_employee-access R registry r today w w' emp emp' result check from to src tgt srcs tgts
      found hf ht ds dt h =
    let (to', there, _, moved) =
      transfer_found-ok R registry r today w w' emp emp' (migrated result check) (rw found at h) in
    let (e, _, _, _) =
      transfer_to-ok R registry r today w w' emp emp' (migrated result check) _ to' moved in
    let same_to : to.devices ≡ to'.devices = ground (arith, ht, there) in
    let acc : emp'.access
        ≡ transferred_access (read_mode r.biometric_mode) (src ∷ srcs) (tgt ∷ tgts)
            (migrated result check) emp.access =
      ap (λ (x : Employee). x.access) e ∙ rw (hf, ds, ← same_to, dt) refl in
    rw acc (
      transferred_access_lem (read_mode r.biometric_mode) src tgt srcs tgts result check emp.access)
