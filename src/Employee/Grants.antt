-- ===== src/Employee/Grants.antt =====
-- `grant_multi_branch_access` and `revoke_employee_device_access`: the home branch, the access
-- list, and what a failure leaves.
use pumo_bio_metric.Prelude.{
  ℕ, ◌≡◌, ◌≢◌, refl, ap, inl, inr, Bool, true, false, ◌&&◌, List, [], ◌∷◌, arith, if◌then◌else◌,
  Option, none, some, Bool-cases, ok, find?, update_all,
}
use mathlib.Core.Option
use pumo_bio_metric.Text.{Text, same, same_iff}
use pumo_bio_metric.Dict.{Dict}
use pumo_bio_metric.Device.{DeviceInfo}
use pumo_bio_metric.Migration.{MigrationResult, PinCheck, is_ok}
use pumo_bio_metric.Employee.{
  BranchDevice, Access, Employee, Readers, Deletion, find_employee, on_device,
}
use pumo_bio_metric.Employee.Service.{Biometric, migrated, World, migrate_employee}
use pumo_bio_metric.Employee.Roaming.{
  GrantRequest, grant_target, granted_employee, grant_from, grant_between, grant_found,
  grant_multi_branch_access, revoked_employee, revoke_found, revoke_employee_device_access,
  set_employee,
}
use pumo_bio_metric.Employee.Directory.{
  employee_at, SamePerson, set_employee-found, set_employee-other,
}
use pumo_bio_metric.Employee.AccessLists.{access_at, access_at-copied_access, access_at-without}

module _ (R : Readers) (r : GrantRequest) (w w' : World R) (emp emp' : Employee) where
  grant_between-ok :
      (bio : Biometric) (src tgt : Option BranchDevice)
      → grant_between R r emp src tgt w ≡ (ok (emp', bio), w')
      → (s t : BranchDevice) × (tgt ≡ some t) × (grant_from R r emp s t w ≡ (ok (emp', bio), w'))
  unfolding grant_between
  grant_between-ok bio none tgt h = absurd (ground (arith, h))
  grant_between-ok bio (some s) none h = absurd (ground (arith, h))
  grant_between-ok bio (some s) (some t) h = (s, t, refl, h)

  grant_from-ok :
      (s t : BranchDevice) (result : MigrationResult) (check : PinCheck)
      → grant_from R r emp s t w ≡ (ok (emp', migrated result check), w')
      → (emp' ≡ (if is_ok result then granted_employee t.sn (migrated result check) emp else emp))
        × (w'.directory
            ≡ (if is_ok result then set_employee r.employee_id emp' w.directory else w.directory))
  unfolding grant_from migrate_employee
  grant_from-ok s t result check h = (ground (arith, h), ground (arith, h))

granted_access :
    (done : Bool) (sn : Text) (result : MigrationResult) (check : PinCheck) (emp emp' : Employee)
    → emp' ≡ (if done then granted_employee sn (migrated result check) emp else emp)
    → (a : Access) × (a.pin ≡ check.target_pin)
      × ((q : Text)
          → access_at q emp'.access
            ≡ (if done && same sn q then some a else access_at q emp.access))
granted_access done sn result check emp emp' e =
    let (a, p, f) = access_at-copied_access sn check.target_pin emp.access in
    (a, p, λ q. elim (Bool-cases done) [ inl d ↦ rw (e, d) (f q) | inr d ↦ rw (e, d) refl ])

granted_person :
    (done : Bool) (sn : Text) (result : MigrationResult) (check : PinCheck) (emp emp' : Employee)
    → emp' ≡ (if done then granted_employee sn (migrated result check) emp else emp)
    → SamePerson emp emp' × (emp'.branch_id ≡ emp.branch_id)
granted_person true sn result check emp emp' e = (
  record {
    id = ap (λ (x : Employee). x.id) e;
    employee_code = ap (λ (x : Employee). x.employee_code) e;
  },
  ap (λ (x : Employee). x.branch_id) e,
)
granted_person false sn result check emp emp' e = (
  record {
    id = ap (λ (x : Employee). x.id) e;
    employee_code = ap (λ (x : Employee). x.employee_code) e;
  },
  ap (λ (x : Employee). x.branch_id) e,
)

granted_directory :
    (done : Bool) (employee_id : Text) (emp emp' : Employee) (k : ℕ) (d d' : List Employee)
    → SamePerson emp emp'
    → (done ≡ false → emp' ≡ emp)
    → d' ≡ (if done then set_employee employee_id emp' d else d)
    → find_employee employee_id d ≡ some emp
    → k ≢ emp.id
    → (find_employee employee_id d' ≡ some emp') × (employee_at k d' ≡ employee_at k d)
granted_directory true employee_id emp emp' k d d' p _ e found other = (
  rw e (set_employee-found employee_id emp emp' d p found),
  rw e (set_employee-other employee_id emp emp' d k p found other),
)
granted_directory false employee_id emp emp' k d d' p kept e found other =
    (rw (e, kept refl) found, rw e refl)

-- A grant that is not refused names a target reader and leaves the employee in the home branch.
-- If the copy succeeded, the target reader has an access entry with the PIN of the check and all
-- other entries are as before; if it failed, the access list finds what it found. The directory
-- has the employee as the reply shows it, and every employee with another id is as before.
pub grant_multi_branch_access-ok :
    (R : Readers) (registry : Dict DeviceInfo) (r : GrantRequest) (w w' : World R)
    (emp emp' : Employee) (result : MigrationResult) (check : PinCheck) (k : ℕ)
    → find_employee r.employee_id w.directory ≡ some emp
    → grant_multi_branch_access R registry r w ≡ (ok (emp', migrated result check), w')
    → k ≢ emp.id
    → (t : BranchDevice) × (a : Access) × (grant_target registry r ≡ some t)
      × (emp'.branch_id ≡ emp.branch_id)
      × (a.pin ≡ check.target_pin)
      × ((q : Text)
          → access_at q emp'.access
            ≡ (if is_ok result && same t.sn q then some a else access_at q emp.access))
      × (find_employee r.employee_id w'.directory ≡ some emp')
      × (employee_at k w'.directory ≡ employee_at k w.directory)
unfolding grant_multi_branch_access grant_found
grant_multi_branch_access-ok R registry r w w' emp emp' result check k found h other =
    let (s, t, named, from) =
      grant_between-ok R r w w' emp emp' (migrated result check) _ _ (rw found at h) in
    let (e, d) = grant_from-ok R r w w' emp emp' s t result check from in
    let (a, pin, f) = granted_access (is_ok result) t.sn result check emp emp' e in
    let (p, home) = granted_person (is_ok result) t.sn result check emp emp' e in
    let (now, others) =
      granted_directory (is_ok result) r.employee_id emp emp' k w.directory w'.directory p
        (λ fail. rw fail at e) d found other in
    (t, a, named, home, pin, f, now, others)

abbrev pub cleared : Access → Access
cleared a = record a { biometrics_cleared = true }

access_at-cleared :
    (sn q : Text) (access : List Access)
    → access_at q (update_all (on_device sn) cleared access)
      ≡ (if same sn q then Option.map cleared (access_at q access) else access_at q access)
unfolding find? update_all
access_at-cleared sn q [] = ground arith
access_at-cleared sn q (a ∷ access) = ground (
  arith,
  access_at-cleared sn q access,
  same_iff a.device_sn sn,
  same_iff a.device_sn q,
  same_iff sn q,
)

revoked_lem :
    (sn q : Text) (only : Bool) (emp : Employee)
    → (access_at q (revoked_employee sn only emp).access ≡ (
        if same sn q
        then if only then Option.map cleared (access_at q emp.access) else none
        else access_at q emp.access))
      × SamePerson emp (revoked_employee sn only emp)
unfolding revoked_employee
revoked_lem sn q true emp =
    (access_at-cleared sn q emp.access, record { id = refl; employee_code = refl })
revoked_lem sn q false emp =
    (access_at-without sn q emp.access, record { id = refl; employee_code = refl })

module _ (R : Readers) (registry : Dict DeviceInfo) (employee_id sn : Text) (only : Bool)
    (w w' : World R) (emp emp' : Employee) (d : Deletion) where
  revoke_found-ok :
      revoke_found R registry employee_id sn only (some emp) w ≡ (ok (emp', d), w')
      → (emp' ≡ (if d.is_ok then revoked_employee sn only emp else emp))
        × (w'.directory
            ≡ (if d.is_ok then set_employee employee_id emp' w.directory else w.directory))
  unfolding revoke_found
  revoke_found-ok h = (ground (arith, h), ground (arith, h))

  revoked_person :
      (q : Text)
      → emp' ≡ (if d.is_ok then revoked_employee sn only emp else emp)
      → (access_at q emp'.access ≡ (
          if d.is_ok && same sn q
          then if only then Option.map cleared (access_at q emp.access) else none
          else access_at q emp.access))
        × SamePerson emp emp'
  revoked_person q e = elim (Bool-cases d.is_ok) [
    | inl done ↦ rw (e, done) (revoked_lem sn q only emp)
    | inr refused ↦ rw (e, refused) (refl, record { id = refl; employee_code = refl })
  ]

-- A revocation on a reader that refuses the deletion changes no employee. One that succeeds drops
-- the access entry of that reader, or after a wipe of the fingerprints alone marks it; the entries
-- of other readers, and every employee with another id, are as before.
pub revoke_employee-ok :
    (R : Readers) (registry : Dict DeviceInfo) (employee_id sn q : Text) (only : Bool)
    (w w' : World R) (emp emp' : Employee) (d : Deletion) (k : ℕ)
    → find_employee employee_id w.directory ≡ some emp
    → revoke_employee_device_access R registry employee_id sn only w ≡ (ok (emp', d), w')
    → k ≢ emp.id
    → (access_at q emp'.access ≡ (
        if d.is_ok && same sn q
        then if only then Option.map cleared (access_at q emp.access) else none
        else access_at q emp.access))
      × (find_employee employee_id w'.directory ≡ some emp')
      × (employee_at k w'.directory ≡ employee_at k w.directory)
unfolding revoke_employee_device_access
revoke_employee-ok R registry employee_id sn q only w w' emp emp' d k found h other =
    let (e, dir) = revoke_found-ok R registry employee_id sn only w w' emp emp' d (rw found at h) in
    let (f, p) = revoked_person R registry employee_id sn only w w' emp emp' d q e in
    let (now, others) =
      granted_directory d.is_ok employee_id emp emp' k w.directory w'.directory p
        (λ refused. rw refused at e) dir found other in
    (f, now, others)
