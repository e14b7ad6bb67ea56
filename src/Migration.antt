-- ===== src/Migration.antt =====
-- PIN mapping and the migration of users between simulated readers, of core/device_migration.py.
-- Log lines and the texts of reasons and messages are left out.
pub mod Pins
pub mod Simulated
pub mod Between
pub mod Same
pub mod Run
pub mod Each
use pumo_bio_metric.Prelude.{
  ℕ, ◌+◌, ◌≡◌, Bool, true, false, not, ◌&&◌, List, [], ◌∷◌, ◌++◌, if◌then◌else◌, Option, none, some,
  map, find?, filter_by, update_first, length,
}
use pumo_bio_metric.Text.{Text, codes, same, strip, lower, is_empty}
use pumo_bio_metric.Dict
use pumo_bio_metric.Dict.{Dict}
use pumo_bio_metric.Device.{DeviceInfo, Resolved, SimRef, resolve_device}
use pumo_bio_metric.Pin.{mapped_pin}
use pumo_bio_metric.Sim.{
  Finger, SimUser, SimState, users_of, set_users, has_pin, max_uid, sim_device,
}

-- A user of the target reader, as `resolve_target_pin` lists them.
pub record Existing : Type 0 where
  pub user_id : Text
  pub name : Text

pub record PinCheck : Type 0 where
  pub device : Text
  pub preferred_pin : Text
  pub target_pin : Text
  pub is_mapped : Bool

abbrev pub existing_pins : List Existing → List Text
existing_pins = map (λ (e : Existing). e.user_id)

-- `user_name and match["name"].strip().lower() == user_name.strip().lower()`
unfoldable pub same_person : Option Text → Text → Bool
same_person none name = false
same_person (some user_name) name =
    not (is_empty user_name) && same (lower (strip name)) (lower (strip user_name))

abbrev pub kept : Text → Text → PinCheck
kept device pref = record {
  device = device;
  preferred_pin = pref;
  target_pin = pref;
  is_mapped = false;
}

abbrev pub mapped : Text → Text → Text → PinCheck
mapped device pref pin = record {
  device = device;
  preferred_pin = pref;
  target_pin = pin;
  is_mapped = true;
}

-- What `resolve_target_pin` does with the first user that has the preferred PIN.
unfoldable pub check_holder : Text → List Existing → Text → Option Text → Option Existing → PinCheck
check_holder device users pref user_name none = kept device pref
check_holder device users pref user_name (some found) =
    if same_person user_name found.name
    then kept device pref
    else mapped device pref (mapped_pin (existing_pins users) pref)

-- `resolve_target_pin`, from the list of the users that the target reader has
unfoldable pub resolve_target_pin : Text → List Existing → Text → Option Text → PinCheck
unfolding check_holder
resolve_target_pin device users preferred user_name =
    check_holder device users (strip preferred) user_name
      (find? (λ (e : Existing). same e.user_id (strip preferred)) users)

abbrev pub to_existing : SimUser → Existing
to_existing u = record { user_id = u.user_id; name = u.name }

-- `existing_users` of a simulated reader; an unknown one has none
unfoldable pub simulated_existing : Option SimRef → SimState → List Existing
simulated_existing none s = []
simulated_existing (some dev) s = map to_existing (users_of dev s)

-- `resolve_target_pin(..., simulate=True)`
unfoldable pub resolve_target_pin_simulated :
    Dict DeviceInfo → Text → Text → Option Text → SimState → PinCheck
unfolding resolve_target_pin simulated_existing
resolve_target_pin_simulated registry target_id preferred user_name s =
    let d = resolve_device registry 4370 target_id in
    resolve_target_pin d.sn (simulated_existing (sim_device d) s) preferred user_name

pub data MigrationError : Type 0 where
  source_not_found target_not_found user_not_found verification_failed pyzk_missing device_failed :
      MigrationError

pub record MigrationResult : Type 0 where
  pub mode : Text
  pub user_id : Text
  pub user_name : Text
  pub source_ip : Text
  pub target_ip : Text
  pub target_user_id : Text
  pub fingers_transferred : ℕ
  -- `ok` is true where there is no error
  pub error : Option MigrationError

pub record MigrateRequest : Type 0 where
  pub source_id : Text
  pub target_id : Text
  pub user_id : Text
  pub mode : Text
  pub target_user_id : Option Text

abbrev pub is_ok : MigrationResult → Bool
is_ok r = elim r.error [ none ↦ true | some _ ↦ false ]

-- `str(target_user_id).strip() if target_user_id else str(user_id)`
unfoldable pub wanted_pin : Option Text → Text → Text
wanted_pin none user_id = user_id
wanted_pin (some pin) user_id = if is_empty pin then user_id else strip pin

-- `mode.lower() == "move"`
unfoldable pub is_move : Text → Bool
is_move mode = same (lower mode) (codes "move")

-- The PIN on the target reader, and whether the profile there is updated: what the code does with
-- the first user that has the wanted PIN.
unfoldable pub place_for : Text → SimUser → List SimUser → Option SimUser → Text × Bool
place_for pin u users none = (pin, false)
place_for pin u users (some e) =
    if same e.name u.name
    then (pin, true)
    else (mapped_pin (map (λ (v : SimUser). v.user_id) users) pin, false)

unfoldable pub place : Text → SimUser → List SimUser → Text × Bool
unfolding place_for
place pin u users = place_for pin u users (find? (has_pin pin) users)

-- `existing_tgt.update({...})`
abbrev pub copy_profile : SimUser → SimUser → SimUser
copy_profile u e = record e {
  name = u.name;
  privilege = u.privilege;
  password = u.password;
  group_id = u.group_id;
  card = u.card;
  fingers = u.fingers;
}

-- `new_tgt_user`
abbrev pub new_profile : SimUser → ℕ → Text → SimUser
new_profile u uid pin = record {
  uid = uid;
  user_id = pin;
  name = u.name;
  privilege = u.privilege;
  password = u.password;
  group_id = u.group_id;
  card = u.card;
  fingers = u.fingers;
  finger_count = none;
}

-- The users of the target reader after the write.
unfoldable pub write_profile : Text × Bool → SimUser → List SimUser → List SimUser
write_profile (pin, true) u users = update_first (has_pin pin) (copy_profile u) users
write_profile (pin, false) u users = users ++ new_profile u (max_uid users + 1) pin ∷ []

-- The last step of a move: the user leaves the source reader.
abbrev pub leave : Bool → Text → SimRef → SimState → SimState
leave moving pin src s =
    if moving then set_users src (filter_by (λ u. not (has_pin pin u)) (users_of src s)) s else s

abbrev pub transfer_user : MigrateRequest → SimRef → SimRef → SimUser → SimState → SimState
transfer_user r src tgt u s = leave (is_move r.mode) r.user_id src (
    set_users tgt
      (write_profile (place (wanted_pin r.target_user_id r.user_id) u (users_of tgt s)) u
        (users_of tgt s))
      s)

abbrev pub failed : MigrateRequest → Text → Text → MigrationError → MigrationResult
failed r src_sn tgt_sn e = record {
  mode = r.mode;
  user_id = r.user_id;
  user_name = codes "N/A";
  source_ip = src_sn;
  target_ip = tgt_sn;
  target_user_id = r.user_id;
  fingers_transferred = 0;
  error = some e;
}

abbrev pub transferred : MigrateRequest → Text → Text → Text → SimUser → MigrationResult
transferred r src_sn tgt_sn pin u = record {
  mode = r.mode;
  user_id = r.user_id;
  user_name = u.name;
  source_ip = src_sn;
  target_ip = tgt_sn;
  target_user_id = pin;
  fingers_transferred = length u.fingers;
  error = none;
}

-- What follows once both readers are known and the source reader was searched for the user.
unfoldable pub migrate_found :
    MigrateRequest
    → Text
    → Text
    → SimRef
    → SimRef
    → SimState
    → Option SimUser
    → MigrationResult × SimState
migrate_found r src_sn tgt_sn src tgt s none = (failed r src_sn tgt_sn user_not_found, s)
migrate_found r src_sn tgt_sn src tgt s (some u) = (
  transferred r src_sn tgt_sn (place (wanted_pin r.target_user_id r.user_id) u (users_of tgt s)).0
      u,
  transfer_user r src tgt u s,
)

unfoldable pub migrate_between :
    MigrateRequest → Text → Text → SimRef → SimRef → SimState → MigrationResult × SimState
unfolding migrate_found
migrate_between r src_sn tgt_sn src tgt s =
    migrate_found r src_sn tgt_sn src tgt s (find? (has_pin r.user_id) (users_of src s))

unfoldable pub migrate_on :
    MigrateRequest
    → Text
    → Text
    → Option SimRef
    → Option SimRef
    → SimState
    → MigrationResult × SimState
migrate_on r src_sn tgt_sn none tgt s = (failed r src_sn tgt_sn source_not_found, s)
migrate_on r src_sn tgt_sn (some src) none s = (failed r src_sn tgt_sn target_not_found, s)
migrate_on r src_sn tgt_sn (some src) (some tgt) s = migrate_between r src_sn tgt_sn src tgt s

-- `source_id or source_sn or source_ip or default`, and so for the target
unfoldable pub first_given : List (Option Text) → Text → Text
first_given [] default = default
first_given (none ∷ ids) default = first_given ids default
first_given (some id ∷ ids) default =
    let rest = first_given ids default in if is_empty id then rest else id

-- `migrate_single_user_simulated`
unfoldable pub migrate_single_user_simulated :
    Dict DeviceInfo → MigrateRequest → SimState → MigrationResult × SimState
migrate_single_user_simulated registry r s =
    let src =
      resolve_device registry 4370 (first_given (some r.source_id ∷ []) (codes "NFZ8254900401")) in
    let tgt =
      resolve_device registry 4370 (first_given (some r.target_id ∷ []) (codes "UFZ9876543210")) in
    migrate_on r src.sn tgt.sn (sim_device src) (sim_device tgt) s

-- The loop of `run_migration(..., simulate=True)`: a blank PIN is skipped.
unfoldable pub migrate_each :
    Dict DeviceInfo
    → Text
    → Text
    → Text
    → Dict Text
    → List Text
    → SimState
    → List MigrationResult × SimState
migrate_each registry src_sn tgt_sn mode targets [] s = ([], s)
migrate_each registry src_sn tgt_sn mode targets (id ∷ ids) s =
    let (r, s') =
      migrate_single_user_simulated registry
        (record {
          source_id = src_sn;
          target_id = tgt_sn;
          user_id = strip id;
          mode = mode;
          target_user_id = Dict.get targets (strip id);
        })
        s in
    let (rs, s'') = migrate_each registry src_sn tgt_sn mode targets ids s' in
    let skipped = migrate_each registry src_sn tgt_sn mode targets ids s in
    if is_empty (strip id) then skipped else (r ∷ rs, s'')

-- `run_migration(..., simulate=True)`
unfoldable pub run_migration_simulated :
    Dict DeviceInfo
    → Text
    → Text
    → Text
    → Dict Text
    → List Text
    → SimState
    → List MigrationResult × SimState
run_migration_simulated registry source_ip target_ip mode targets ids s =
    migrate_each registry (resolve_device registry 4370 source_ip).sn
      (resolve_device registry 4370 target_ip).sn mode targets ids s
