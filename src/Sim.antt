-- ===== src/Sim.antt =====
-- The simulated readers of core/device_migration.py: users, the two objects of the simulator, and
-- the operations on one reader. The text of messages and log lines is left out.
pub mod Users
pub mod Delete
pub mod Batch
pub mod Inventory
pub mod State
use pumo_bio_metric.Prelude.{
  ℕ, ◌+◌, ◌≤◌, Bool, true, false, not, ◌&&◌, ◌||◌, List, [], ◌∷◌, ◌++◌, ltb, ◌==◌, if◌then◌else◌,
  Option, none, some, any, map, find?, filter_by, update_first, length, count_by, Result, ok, err,
}
use Prim.Native.Nat.{max}
use pumo_bio_metric.Text.{Text, codes, same, strip, lower, has_code, is_empty}
use pumo_bio_metric.Dict
use pumo_bio_metric.Dict.{Dict}
use pumo_bio_metric.Device.{
  DeviceInfo, Resolved, SimRef, sim_source, sim_target, simulated_devices, resolve_device,
}

pub record Finger : Type 0 where
  pub fid : ℕ
  pub valid : ℕ
  pub template : Text

pub record SimUser : Type 0 where
  pub uid : ℕ
  pub user_id : Text
  pub name : Text
  pub privilege : ℕ
  pub password : Text
  pub group_id : Text
  pub card : ℕ
  pub fingers : List Finger
  -- A key that only a wipe of the fingerprints adds.
  pub finger_count : Option ℕ

-- The `users` lists of `_SIM_SOURCE` and `_SIM_TARGET`.
pub record SimState : Type 0 where
  pub source_users : List SimUser
  pub target_users : List SimUser

abbrev pub users_of : SimRef → SimState → List SimUser
users_of sim_source s = s.source_users
users_of sim_target s = s.target_users

abbrev pub set_users : SimRef → List SimUser → SimState → SimState
set_users sim_source us s = record s { source_users = us }
set_users sim_target us s = record s { target_users = us }

abbrev finger : ℕ → Text → Finger
finger fid template = record { fid = fid; valid = 1; template = template }

abbrev simulated_user : ℕ → Text → Text → ℕ → ℕ → List Finger → SimUser
simulated_user uid pin name privilege card fingers = record {
  uid = uid;
  user_id = pin;
  name = name;
  privilege = privilege;
  password = [];
  group_id = codes "1";
  card = card;
  fingers = fingers;
  finger_count = none;
}

-- `reset_simulation_state`, which is also the state at import
abbrev pub reset_simulation_state : SimState
reset_simulation_state = record {
  source_users =
      simulated_user 1 (codes "101") (codes "Member 1o") 0 0 (
        finger 0 (codes "TEMPLATE_FINGER_0_USER_101_SAMPLE")
        ∷ finger 1 (codes "TEMPLATE_FINGER_1_USER_101_SAMPLE")
        ∷ [])
      ∷ simulated_user 2 (codes "102") (codes "Gowtham") 0 0
          (finger 0 (codes "TEMPLATE_FINGER_0_USER_102_SAMPLE") ∷ [])
      ∷ simulated_user 3 (codes "111") (codes "ARULAJAY") 14 0 []
      ∷ [];
  target_users =
      simulated_user 1 (codes "9999") (codes "Master Super Admin") 14 999999
        (finger 0 (codes "MOCK_TEMPLATE_FINGER_0_USER_9999_HEX_DATA_SAMPLE") ∷ [])
      ∷ [];
}

-- `SIMULATED_DEVICES.get(sn) or SIMULATED_DEVICES.get(ip)`
unfoldable pub sim_device : Resolved → Option SimRef
unfolding Dict.get
sim_device d = elim (Dict.get simulated_devices d.sn) [
  | some dev ↦ some dev
  | none ↦ Dict.get simulated_devices d.ip
]

abbrev pub has_pin : Text → SimUser → Bool
has_pin pin u = same u.user_id pin

abbrev pub has_uid : ℕ → SimUser → Bool
has_uid n u = u.uid == n

-- `max((u["uid"] for u in users), default=0)`
unfoldable pub max_uid : List SimUser → ℕ
max_uid [] = 0
max_uid (u ∷ us) = max u.uid (max_uid us)

pub data SimError : Type 0 where
  id_and_name_required pin_too_long device_not_found user_exists user_not_found : SimError

-- `ip_override if ip_override and "." in ip_override else resolved["ip"]`
unfoldable pub override_ip : Option Text → Resolved → Resolved
unfolding has_code
override_ip none d = d
override_ip (some ip) d = if has_code b'.' ip then record d { ip = ip } else d

pub record CreateRequest : Type 0 where
  pub device_id : Text
  pub user_id : Text
  pub name : Text
  pub port : ℕ
  pub privilege : ℕ
  pub password : Text
  pub card : ℕ
  pub ip_override : Option Text

-- The profile that `create_device_user` appends.
abbrev pub new_user : CreateRequest → ℕ → SimUser
new_user r uid = record {
  uid = uid;
  user_id = strip r.user_id;
  name = strip r.name;
  privilege = if r.privilege == 14 then 14 else 0;
  password = r.password;
  group_id = codes "1";
  card = r.card;
  fingers = [];
  finger_count = none;
}

abbrev add_user : CreateRequest → SimRef → SimState → Result SimError SimUser × SimState
add_user r dev s =
    let users = users_of dev s in
    if any (has_pin (strip r.user_id)) users then (err user_exists, s) else (
      ok (new_user r (max_uid users + 1)),
      set_users dev (users ++ new_user r (max_uid users + 1) ∷ []) s,
    )

create_on : Option SimRef → CreateRequest → SimState → Result SimError SimUser × SimState
create_on none r s = (err device_not_found, s)
create_on (some dev) r s = add_user r dev s

-- `create_device_user(..., simulate=True)`
unfoldable pub create_device_user_simulated :
    Dict DeviceInfo → CreateRequest → SimState → Result SimError SimUser × SimState
unfolding create_on
create_device_user_simulated registry r s =
    if is_empty (strip r.user_id) || is_empty (strip r.name)
    then (err id_and_name_required, s)
    else if ltb 24 (length (strip r.user_id))
    then (err pin_too_long, s)
    else create_on
        (sim_device (override_ip r.ip_override (resolve_device registry r.port r.device_id))) r s

-- The reply of a deletion that did not fail.
pub record DeleteReply : Type 0 where
  pub deleted : Bool
  pub biometrics_only : Bool
  pub device : Text
  pub user_id : Text

-- `target["fingers"] = []; target["finger_count"] = 0`
abbrev pub clear_fingers : SimUser → SimUser
clear_fingers u = record u { fingers = []; finger_count = some 0 }

abbrev delete_from : Text → Bool → Text → SimRef → SimState → Result SimError DeleteReply × SimState
delete_from user_id only sn dev s =
    let users = users_of dev s in
    if any (has_pin user_id) users
    then (
      ok (record { deleted = true; biometrics_only = only; device = sn; user_id = user_id }),
      set_users dev
          (if only
            then update_first (has_pin user_id) clear_fingers users
            else filter_by (λ u. not (has_pin user_id u)) users)
          s,
    )
    else (
      ok (record { deleted = false; biometrics_only = false; device = sn; user_id = user_id }),
      s,
    )

delete_on : Option SimRef → Text → Bool → Text → SimState → Result SimError DeleteReply × SimState
delete_on none user_id only sn s = (err device_not_found, s)
delete_on (some dev) user_id only sn s = delete_from user_id only sn dev s

-- `delete_device_user_simulated`
unfoldable pub delete_device_user_simulated :
    Dict DeviceInfo → Text → Text → Bool → SimState → Result SimError DeleteReply × SimState
unfolding delete_on
delete_device_user_simulated registry device_id user_id only s =
    let d = resolve_device registry 4370 device_id in delete_on (sim_device d) user_id only d.sn s

abbrev pub was_deleted : Result SimError DeleteReply → Bool
was_deleted (ok r) = r.deleted
was_deleted (err _) = false

-- The loop of `delete_batch_device_users(..., simulate=True)`
unfoldable pub delete_each :
    Dict DeviceInfo
    → Text
    → List Text
    → Bool
    → SimState
    → List (Result SimError DeleteReply) × SimState
delete_each registry device_id [] only s = ([], s)
delete_each registry device_id (pin ∷ pins) only s =
    let (r, s') = delete_device_user_simulated registry device_id pin only s in
    let (rs, s'') = delete_each registry device_id pins only s' in (r ∷ rs, s'')

pub record BatchReply : Type 0 where
  pub deleted_count : ℕ
  pub total_requested : ℕ
  pub results : List (Result SimError DeleteReply)

-- `delete_batch_device_users(..., simulate=True)`
unfoldable pub delete_batch_simulated :
    Dict DeviceInfo → Text → List Text → Bool → SimState → BatchReply × SimState
delete_batch_simulated registry device_id pins only s =
    let (rs, s') = delete_each registry device_id pins only s in
    (
      record {
        deleted_count = count_by was_deleted rs;
        total_requested = length pins;
        results = rs;
      },
      s',
    )
