-- ===== src/Sim/Inventory.antt =====
-- What a simulated reader is reported to hold: get_employee_info, probe_device_connection and
-- fetch_device_users of core/device_migration.py, with simulate=True.
use pumo_bio_metric.Prelude.{
  ℕ, ◌+◌, ◌≡◌, refl, List, [], ◌∷◌, ◌++◌, map, arith, length, ◌==◌, if◌then◌else◌, Option, none,
  some, Result, ok, err,
}
use pumo_bio_metric.Text.{Text, codes, strip, startswith}
use pumo_bio_metric.Dict
use pumo_bio_metric.Dict.{Dict}
use pumo_bio_metric.Device.{DeviceInfo, Resolved, SimRef, sim_info, resolve_device}
use pumo_bio_metric.Sim.{
  Finger, SimUser, SimState, SimError, device_not_found, users_of, sim_device,
}

-- The name in user_names.json, or a placeholder; a file that is absent or does not parse is empty.
unfoldable pub employee_name : Dict Text → Text → Text
employee_name names user_id = elim (Dict.get names (strip user_id)) [
  | some name ↦ name
  | none ↦ codes "User " ++ strip user_id
]

-- An entry of `users` in the reply of `fetch_device_users`
pub record Listed : Type 0 where
  pub uid : ℕ
  pub user_id : Text
  pub name : Text
  pub privilege : ℕ
  pub role_label : Text
  pub card : ℕ
  pub finger_count : ℕ
  pub finger_fids : List ℕ

abbrev pub listed : Dict Text → SimUser → Listed
listed names u = record {
  uid = u.uid;
  user_id = u.user_id;
  name =
      if startswith (employee_name names u.user_id) (codes "User ")
      then u.name
      else employee_name names u.user_id;
  privilege = u.privilege;
  role_label =
      if u.privilege == 14
      then codes "Super Admin"
      else if u.privilege == 2
      then codes "Manager"
      else codes "Normal User";
  card = u.card;
  finger_count = length u.fingers;
  finger_fids = map (λ (f : Finger). f.fid) u.fingers;
}

pub record Fetched : Type 0 where
  pub serial_number : Text
  pub ip : Text
  pub count : ℕ
  pub users : List Listed

unfoldable pub fetch_on : Dict Text → Resolved → Option SimRef → SimState → Result SimError Fetched
fetch_on names d none s = err device_not_found
fetch_on names d (some dev) s = ok (record {
  serial_number = d.sn;
  ip = d.ip;
  count = length (map (listed names) (users_of dev s));
  users = map (listed names) (users_of dev s);
})

-- `fetch_device_users(..., simulate=True)`
unfoldable pub fetch_device_users_simulated :
    Dict DeviceInfo → Dict Text → Text → ℕ → SimState → Result SimError Fetched
fetch_device_users_simulated registry names device_id port s =
    let d = resolve_device registry port device_id in fetch_on names d (sim_device d) s

-- `sum(len(u.get("fingers", [])) for u in users)`
unfoldable pub finger_total : List SimUser → ℕ
finger_total [] = 0
finger_total (u ∷ us) = length u.fingers + finger_total us

pub record Probe : Type 0 where
  pub ip : Text
  pub port : ℕ
  pub serial_number : Text
  pub user_count : ℕ
  pub finger_count : ℕ

-- A reader that the simulator does not have is reported as an empty one.
unfoldable pub probe_on : Resolved → Option SimRef → SimState → Probe
probe_on d none s = record {
  ip = d.ip;
  port = d.port;
  serial_number = d.sn;
  user_count = 0;
  finger_count = 0;
}
probe_on d (some dev) s = record {
  ip = d.ip;
  port = d.port;
  serial_number = (sim_info dev).sn;
  user_count = length (users_of dev s);
  finger_count = finger_total (users_of dev s);
}

-- `probe_device_connection(..., simulate=True)`
unfoldable pub probe_device_simulated : Dict DeviceInfo → Text → ℕ → SimState → Probe
probe_device_simulated registry device_id port s =
    let d = resolve_device registry port device_id in probe_on d (sim_device d) s

unfoldable pub listed_fingers : List Listed → ℕ
listed_fingers [] = 0
listed_fingers (l ∷ ls) = l.finger_count + listed_fingers ls

length-map-listed :
    (names : Dict Text) (us : List SimUser) → length (map (listed names) us) ≡ length us
length-map-listed names [] = refl
length-map-listed names (u ∷ us) = rw (length-map-listed names us) refl

listed_fingers-map :
    (names : Dict Text) (us : List SimUser)
    → listed_fingers (map (listed names) us) ≡ finger_total us
unfolding listed_fingers finger_total
listed_fingers-map names [] = refl
listed_fingers-map names (u ∷ us) = rw (listed_fingers-map names us) refl

fetch_on-probe :
    (names : Dict Text) (d : Resolved) (dev : Option SimRef) (s : SimState) (f : Fetched)
    → fetch_on names d dev s ≡ ok f
    → (f.count ≡ (probe_on d dev s).user_count)
      × (listed_fingers f.users ≡ (probe_on d dev s).finger_count)
unfolding fetch_on probe_on
fetch_on-probe names d none s f h = ground (arith, h)
fetch_on-probe names d (some dev) s f h =
    ground (
      arith,
      h,
      length-map-listed names (users_of dev s),
      listed_fingers-map names (users_of dev s),
    )

-- A listing of a reader and a probe of it agree: the listing has as many users as the probe counts,
-- and their fingerprints add up to the number that the probe reports.
pub fetch_device_users-probe :
    (registry : Dict DeviceInfo) (names : Dict Text) (device_id : Text) (port : ℕ) (s : SimState)
    (f : Fetched)
    → fetch_device_users_simulated registry names device_id port s ≡ ok f
    → (f.count ≡ (probe_device_simulated registry device_id port s).user_count)
      × (listed_fingers f.users ≡ (probe_device_simulated registry device_id port s).finger_count)
unfolding fetch_device_users_simulated probe_device_simulated
fetch_device_users-probe registry names device_id port s f h =
    fetch_on-probe names (resolve_device registry port device_id)
      (sim_device (resolve_device registry port device_id)) s f h
