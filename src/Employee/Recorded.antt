-- ===== src/Employee/Recorded.antt =====
-- The PIN that the directory records for the target reader, against the PIN under which the
-- simulated reader has the profile.
use pumo_bio_metric.Prelude.{
  ◌≡◌, refl, Bool, true, false, List, arith, Option, none, some, find?, map, Bool-cases, inl, inr,
}
use pumo_bio_metric.Text.{Text, same, same_iff, same_refl}
use pumo_bio_metric.Dict.{Dict}
use pumo_bio_metric.Device.{DeviceInfo, SimRef}
use pumo_bio_metric.Pin.Laws.{mapped_pin-free}
use pumo_bio_metric.Sim.{SimUser, SimState, users_of, has_pin}
use pumo_bio_metric.Sim.Users.{user_at}
use pumo_bio_metric.Migration.{
  MigrateRequest, MigrationResult, PinCheck, place_for, place, wanted_pin, migrate_found,
  migrate_between, migrate_on, migrate_single_user_simulated,
}
use pumo_bio_metric.Migration.Pins.{find?-user_ids}
use pumo_bio_metric.Migration.Run.{source_device, target_device}
use pumo_bio_metric.Employee.{Employee, BranchDevice, pin_on, simulated}
use pumo_bio_metric.Employee.Service.{migrated, migrate_employee}

-- Nobody has the PIN, or its holder has the very name of `u`.
abbrev pub is_own : SimUser → Option SimUser → Bool
is_own u none = true
is_own u (some e) = same e.name u.name

found_apart :
    (p q : Text) (e : SimUser) (us : List SimUser)
    → find? (has_pin p) us ≡ some e
    → find? (has_pin q) us ≡ none
    → same q p ≡ false
unfolding find?
found_apart p q e us h k = ground (arith, h, k, same_iff q p)

place_for_own :
    (want : Text) (u : SimUser) (us : List SimUser) (o : Option SimUser)
    → find? (has_pin want) us ≡ o
    → same (place_for want u us o).0 want ≡ is_own u o
unfolding place_for
place_for_own want u us none h = same_refl want
place_for_own want u us (some e) h = elim (Bool-cases (same e.name u.name)) [
  | inl known ↦ rw known (same_refl want)
  | inr other ↦ rw other (
      found_apart want _ e us h
        (find?-user_ids _ us (mapped_pin-free (map (λ (v : SimUser). v.user_id) us) want)))
]

-- The profile lies under the wanted PIN exactly when that PIN was free on the target reader or
-- belonged to a user of the very same name.
pub target_user_id-own :
    (registry : Dict DeviceInfo) (r : MigrateRequest) (src tgt : SimRef) (u : SimUser)
    (s : SimState)
    → source_device registry r ≡ some src
    → target_device registry r ≡ some tgt
    → user_at src r.user_id s ≡ some u
    → let want = wanted_pin r.target_user_id r.user_id in
      same (migrate_single_user_simulated registry r s).0.target_user_id want
      ≡ is_own u (user_at tgt want s)
unfolding migrate_single_user_simulated migrate_on migrate_between migrate_found place
target_user_id-own registry r src tgt u s hs ht h =
    rw (hs, ht, h) (place_for_own (wanted_pin r.target_user_id r.user_id) u (users_of tgt s) _ refl)

-- The request that the service makes for an employee.
abbrev pub request_for : Employee → BranchDevice → BranchDevice → Text → PinCheck → MigrateRequest
request_for emp src tgt mode check = record {
  source_id = src.sn;
  target_id = tgt.sn;
  user_id = pin_on src.sn emp;
  mode = mode;
  target_user_id = some check.target_pin;
}

-- On the simulated readers, the PIN that the service records for the target reader, the PIN of its
-- check, is the one under which the reader has the migrated profile exactly when nobody had that
-- PIN there, or somebody of the very name that the source reader has for the employee.
pub recorded_pin :
    (registry : Dict DeviceInfo) (emp : Employee) (src tgt : BranchDevice) (mode : Text)
    (s s' : SimState) (result : MigrationResult) (check : PinCheck) (sdev tdev : SimRef)
    (u : SimUser)
    → migrate_employee (simulated registry) emp src tgt mode s ≡ (migrated result check, s')
    → source_device registry (request_for emp src tgt mode check) ≡ some sdev
    → target_device registry (request_for emp src tgt mode check) ≡ some tdev
    → user_at sdev (pin_on src.sn emp) s ≡ some u
    → wanted_pin (some check.target_pin) (pin_on src.sn emp) ≡ check.target_pin
    → same result.target_user_id check.target_pin ≡ is_own u (user_at tdev check.target_pin s)
unfolding migrate_employee
recorded_pin registry emp src tgt mode s s' result check sdev tdev u h hs ht hu wanted =
    let r = request_for emp src tgt mode check in
    let same_result : result ≡ (migrate_single_user_simulated registry r s).0 = ground (arith, h) in
    let own = target_user_id-own registry r sdev tdev u s hs ht hu in
    rw same_result (rw wanted at own)
