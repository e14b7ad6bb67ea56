-- ===== src/Employee/Removal.antt =====
-- `fire_employee_and_wipe_biometrics` and `delete_employee_permanently`: the readers asked, the
-- access list, the directory, and the simulated readers afterwards.
use pumo_bio_metric.Prelude.{
  ℕ, ◌≡◌, ◌≢◌, refl, ◌∙◌, ap, inl, inr, Bool, true, false, ◌&&◌, List, [], ◌∷◌, ◌++◌, map, arith,
  if◌then◌else◌, Option, none, some, any, Bool-cases, ok, find?,
}
use pumo_bio_metric.Text.{Text, codes, same, same_iff}
use pumo_bio_metric.Dict.{Dict}
use pumo_bio_metric.Device.{DeviceInfo, SimRef, resolve_device}
use pumo_bio_metric.Sim.{SimState, sim_device, delete_device_user_simulated}
use pumo_bio_metric.Sim.State.{same_ref_refl}
use pumo_bio_metric.Sim.Users.{user_at}
use pumo_bio_metric.Sim.Delete.{delete_device_user-user_at, delete_device_user-unknown}
use pumo_bio_metric.Employee.{Access, Employee, DeviceResult, Readers, simulated, find_employee}
use pumo_bio_metric.Employee.Service.{World}
use pumo_bio_metric.Employee.Roaming.{set_employee}
use pumo_bio_metric.Employee.Offboard.{
  FireRequest, single_device, all_targets, fire_targets, is_fire_all, fired_employee,
  delete_on_each, fire_found, fire_employee,
}
use pumo_bio_metric.Employee.Recording.{recording, noted-delete_on_each}
use pumo_bio_metric.Employee.Directory.{
  employee_at, SamePerson, set_employee-found, set_employee-other,
}
use pumo_bio_metric.Employee.AccessLists.{access_at, access_at-without}

-- The reader and the PIN that a result names.
abbrev pub asked : List DeviceResult → List (Text × Text)
asked = map (λ (d : DeviceResult). (d.device_sn, d.pin))

-- There is one result for each target, in their order.
pub asked-delete_on_each :
    (R : Readers) (registry : Dict DeviceInfo) (only : Bool) (targets : List (Text × Text))
    (s : R.State)
    → asked (delete_on_each R registry only targets s).0 ≡ targets
unfolding delete_on_each
asked-delete_on_each R registry only [] s = refl
asked-delete_on_each R registry only ((sn, pin) ∷ targets) s =
    ap (λ ts. (sn, pin) ∷ ts) (asked-delete_on_each R registry only targets _)

abbrev pub fired_access : FireRequest → Text → List Access → Option Access
fired_access r q access = if is_fire_all r then none else elim r.device_sn [
  | none ↦ access_at q access
  | some sn ↦ if same sn q then none else access_at q access
]

module _ (r : FireRequest) (today : Text) (results : List DeviceResult) (emp : Employee) where
  fired_employee-access :
      (q : Text) (o : Option Text)
      → r.device_sn ≡ o
      → access_at q (fired_employee r today results emp).access ≡ fired_access r q emp.access
  unfolding fired_employee find?
  fired_employee-access q none e = elim (Bool-cases (is_fire_all r)) [
    | inl all ↦ rw all refl
    | inr one ↦ rw (one, e) refl
  ]
  fired_employee-access q (some sn) e = elim (Bool-cases (is_fire_all r)) [
    | inl all ↦ rw all refl
    | inr one ↦ rw (one, e) (access_at-without sn q emp.access)
  ]

  fired_employee-person :
      SamePerson emp (fired_employee r today results emp)
      × ((fired_employee r today results emp).status
          ≡ (if is_fire_all r then some (codes "Terminated") else emp.status))
  unfolding fired_employee
  fired_employee-person = elim (Bool-cases (is_fire_all r)) [
    | inl all ↦ rw all (record { id = refl; employee_code = refl }, refl)
    | inr one ↦ rw one (record { id = refl; employee_code = refl }, refl)
  ]

module _ (R : Readers) (registry : Dict DeviceInfo) (r : FireRequest) (today : Text)
    (w w' : World R) (emp emp' : Employee) (results : List DeviceResult) where
  fire_found-ok :
      fire_found R registry r today (some emp) w ≡ (ok (emp', results), w')
      → (results
          ≡ (delete_on_each R registry
              (same r.delete_mode (codes "biometrics_only"))
              (fire_targets registry r emp)
              w.readers).0)
        × (emp' ≡ fired_employee r today results emp)
        × (w'.directory ≡ set_employee r.employee_id emp' w.directory)
        × (w'.readers
            ≡ (delete_on_each R registry
                (same r.delete_mode (codes "biometrics_only"))
                (fire_targets registry r emp)
                w.readers).1)
  unfolding fire_found
  fire_found-ok h = (ground (arith, h), ground (arith, h), ground (arith, h), ground (arith, h))

-- On readers that note the deletions they are asked for: offboarding an employee who exists asks
-- every target reader once, in order, to delete the target's PIN, or the fingerprints alone where
-- the request says so, and answers with a result for each. Whatever the readers answered,
-- "fire_all" leaves no access entry and the status "Terminated", and any other action drops the
-- entry of the named reader, if one is named, and keeps the status. The directory has the employee
-- so, and every employee with another id is as before.
pub fire_employee-ok :
    (R : Readers) (registry : Dict DeviceInfo) (r : FireRequest) (today q : Text)
    (w w' : World (recording R)) (emp emp' : Employee) (results : List DeviceResult) (k : ℕ)
    → find_employee r.employee_id w.directory ≡ some emp
    → fire_employee (recording R) registry r today w ≡ (ok (emp', results), w')
    → k ≢ emp.id
    → (w'.readers.1
        ≡ w.readers.1
          ++ map
              (λ t. (t, same r.delete_mode (codes "biometrics_only")))
              (fire_targets registry r emp))
      × (asked results ≡ fire_targets registry r emp)
      × (access_at q emp'.access ≡ fired_access r q emp.access)
      × (emp'.status ≡ (if is_fire_all r then some (codes "Terminated") else emp.status))
      × (find_employee r.employee_id w'.directory ≡ some emp')
      × (employee_at k w'.directory ≡ employee_at k w.directory)
unfolding fire_employee
fire_employee-ok R registry r today q w w' emp emp' results k found h other =
    let (res, e, d, rs) =
      fire_found-ok (recording R) registry r today w w' emp emp' results (rw found at h) in
    let (p, status) = fired_employee-person r today results emp in
    let p' : SamePerson emp emp' = rw e p in
    (
      ap (λ s. s.1) rs
          ∙ noted-delete_on_each R registry _ (fire_targets registry r emp) w.readers.0 w.readers.1,
      ap asked res
          ∙ asked-delete_on_each (recording R) registry _ (fire_targets registry r emp) w.readers,
      rw e (fired_employee-access r today results emp q r.device_sn refl),
      rw e status,
      rw d (set_employee-found r.employee_id emp emp' w.directory p' found),
      rw d (set_employee-other r.employee_id emp emp' w.directory k p' found other),
    )

targets_without_device :
    (registry : Dict DeviceInfo) (r : FireRequest) (emp : Employee)
    → r.device_sn ≡ none
    → fire_targets registry r emp ≡ all_targets registry emp
unfolding fire_targets single_device
targets_without_device registry r emp h = rw h refl

access_without_device :
    (r : FireRequest) (q : Text) (access : List Access)
    → r.action ≡ codes "delete_device"
    → r.device_sn ≡ none
    → fired_access r q access ≡ access_at q access
unfolding is_fire_all same
access_without_device r q access act no_sn = rw (act, no_sn) refl

-- The action "delete_device" without a reader asks every reader of the employee to delete the user,
-- and leaves every access entry in the directory.
pub fire_employee_without_device :
    (R : Readers) (registry : Dict DeviceInfo) (r : FireRequest) (today q : Text) (w w' : World R)
    (emp emp' : Employee) (results : List DeviceResult)
    → find_employee r.employee_id w.directory ≡ some emp
    → fire_employee R registry r today w ≡ (ok (emp', results), w')
    → r.action ≡ codes "delete_device"
    → r.device_sn ≡ none
    → (asked results ≡ all_targets registry emp)
      × (access_at q emp'.access ≡ access_at q emp.access)
unfolding fire_employee
fire_employee_without_device R registry r today q w w' emp emp' results found h act no_sn =
    let (res, e, _, _) = fire_found-ok R registry r today w w' emp emp' results (rw found at h) in
    (
      ap asked res
          ∙ asked-delete_on_each R registry _ (fire_targets registry r emp) w.readers
          ∙ targets_without_device registry r emp no_sn,
      rw e (
          fired_employee-access r today results emp q r.device_sn refl
          ∙ access_without_device r q emp.access act no_sn),
    )

-- A full deletion anywhere leaves a PIN that is gone gone.
deleted_lem :
    (registry : Dict DeviceInfo) (device_id pin q : Text) (s : SimState) (o : Option SimRef)
    (dev : SimRef)
    → sim_device (resolve_device registry 4370 device_id) ≡ o
    → user_at dev q s ≡ none
    → user_at dev q (delete_device_user_simulated registry device_id pin false s).1 ≡ none
deleted_lem registry device_id pin q s none dev e h =
    rw (delete_device_user-unknown registry device_id pin false s e) h
deleted_lem registry device_id pin q s (some d) dev e h =
    ground (arith, (delete_device_user-user_at registry device_id pin false s d dev q e).1, h)

still_gone :
    (registry : Dict DeviceInfo) (device_id pin q : Text) (dev : SimRef) (s : SimState)
    → user_at dev q s ≡ none
    → user_at dev q (delete_device_user_simulated registry device_id pin false s).1 ≡ none
still_gone registry device_id pin q dev s h = deleted_lem registry device_id pin q s _ dev refl h

-- One target of a wipe.
abbrev pub is_target : Text → Text → Text × Text → Bool
is_target sn pin (sn', pin') = same sn' sn && same pin' pin

module _ (registry : Dict DeviceInfo) (sn pin : Text) (dev : SimRef) where
  now_gone :
      (sn' pin' : Text) (s : SimState)
      → sim_device (resolve_device registry 4370 sn) ≡ some dev
      → is_target sn pin (sn', pin') ≡ true
      → user_at dev pin (delete_device_user_simulated registry sn' pin' false s).1 ≡ none
  now_gone sn' pin' s hd t =
      let e : sn' ≡ sn = (same_iff sn' sn).0 (ground (arith, t)) in
      let p : same pin' pin ≡ true = ground (arith, t) in
      (delete_device_user-user_at registry sn' pin' false s dev dev pin (rw e hd)).1
      ∙ rw (p, same_ref_refl dev) refl

  stays_gone :
      (targets : List (Text × Text)) (s : SimState)
      → user_at dev pin s ≡ none
      → user_at dev pin (delete_on_each (simulated registry) registry false targets s).1 ≡ none
  unfolding delete_on_each
  stays_gone [] s h = h
  stays_gone ((sn', pin') ∷ targets) s h =
      stays_gone targets _ (still_gone registry sn' pin' pin dev s h)

  wiped :
      (targets : List (Text × Text)) (s : SimState)
      → sim_device (resolve_device registry 4370 sn) ≡ some dev
      → any (is_target sn pin) targets ≡ true
      → user_at dev pin (delete_on_each (simulated registry) registry false targets s).1 ≡ none
  unfolding delete_on_each any
  wiped [] s hd m = absurd (ground (arith, m))
  wiped ((sn', pin') ∷ targets) s hd m = elim (Bool-cases (is_target sn pin (sn', pin'))) [
    | inl this ↦ stays_gone targets _ (now_gone sn' pin' s hd this)
    | inr later ↦ wiped targets _ hd (ground (arith, m, later))
  ]

-- With the simulated readers, an offboarding that is not for the fingerprints alone leaves no
-- target reader that the simulator knows with a user under the target's PIN.
pub fire_employee-wiped :
    (registry : Dict DeviceInfo) (r : FireRequest) (today sn pin : Text)
    (w w' : World (simulated registry)) (emp emp' : Employee) (results : List DeviceResult)
    (dev : SimRef)
    → find_employee r.employee_id w.directory ≡ some emp
    → fire_employee (simulated registry) registry r today w ≡ (ok (emp', results), w')
    → same r.delete_mode (codes "biometrics_only") ≡ false
    → any (is_target sn pin) (fire_targets registry r emp) ≡ true
    → sim_device (resolve_device registry 4370 sn) ≡ some dev
    → user_at dev pin w'.readers ≡ none
unfolding fire_employee
fire_employee-wiped registry r today sn pin w w' emp emp' results dev found h full m hd =
    let (_, _, _, rs) =
      fire_found-ok (simulated registry) registry r today w w' emp emp' results (rw found at h) in
    rw (rs, full) (wiped registry sn pin dev (fire_targets registry r emp) w.readers hd m)
