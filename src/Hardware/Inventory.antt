-- ===== src/Hardware/Inventory.antt =====
-- probe_device_connection and fetch_device_users of core/device_migration.py on hardware.
pub mod Enabled
pub mod Same
use pumo_bio_metric.Prelude.{
  ℕ, ◌==◌, Bool, true, false, not, ◌&&◌, List, [], ◌∷◌, ◌++◌, map, filter_by, length, if◌then◌else◌,
  Option, none, some, Result, ok, err,
}
use pumo_bio_metric.Text.{Text, codes, strip, startswith, is_empty}
use pumo_bio_metric.Dict.{Dict}
use pumo_bio_metric.Device.{DeviceInfo, Resolved, resolve_device}
use pumo_bio_metric.Sim.{Finger}
use pumo_bio_metric.Sim.Inventory.{Listed, employee_name}
use pumo_bio_metric.Hardware.{
  HwUser, Template, End, target, disable, enable, disconnect, Driver, Event, remembered, Hw, M,
  ◌>>=◌, ◌>>◌, pure, attempt, note, connect, run, get_users, quietly, is_open,
}

-- What pyzk answers about the reader itself; `some none` for no value.
pub record Specs (D : Driver) : Type 0 where
  pub get_device_name : D.World → Option (Option Text) × D.World
  pub get_serialnumber : D.World → Option (Option Text) × D.World
  pub get_fp_version : D.World → Option ℕ × D.World
  pub get_platform : D.World → Option (Option Text) × D.World

pub data InventoryError : Type 0 where
  no_pyzk connection_failed : InventoryError

pub record HwProbe : Type 0 where
  pub ip : Text
  pub port : ℕ
  pub device_name : Text
  pub serial_number : Text
  pub user_count : ℕ
  pub finger_count : ℕ
  pub fp_version : ℕ
  pub platform : Text

pub record HwFetched : Type 0 where
  pub serial_number : Text
  pub ip : Text
  pub count : ℕ
  pub users : List Listed

-- `value or default`, with another value where the call raised
abbrev pub answered_or : Text → Text → Option (Option Text) → Text
answered_or default raised none = raised
answered_or default raised (some none) = default
answered_or default raised (some (some s)) = if is_empty s then default else s

abbrev pub length_or_zero : {A : Type 0} → Option (List A) → ℕ
length_or_zero none = 0
length_or_zero (some xs) = length xs

abbrev pub or_none_at_all : {A : Type 0} → Option (List A) → List A
or_none_at_all none = []
or_none_at_all (some xs) = xs

-- `resolved.get("name", f"Reader ({target_sn})")`
unfoldable pub target_name : Resolved → Text
target_name d = elim d.name [ some name ↦ name | none ↦ codes "Reader (" ++ (d.sn ++ codes ")") ]

-- `finger_map.get(u.uid, [])`
unfoldable pub fids_of : List Template → ℕ → List ℕ
fids_of templates uid =
    map (λ (t : Template). t.finger.fid) (filter_by (λ (t : Template). t.uid == uid) templates)

unfoldable pub shown_name : Dict Text → HwUser → Text
unfolding startswith
shown_name names u =
    if startswith (employee_name names u.user_id) (codes "User ")
    then if is_empty u.name then codes "User " ++ u.user_id else u.name
    else employee_name names u.user_id

-- An entry of `users_list`.
unfoldable pub hw_listed : Dict Text → List Template → HwUser → Listed
hw_listed names templates u = record {
  uid = u.uid;
  user_id = u.user_id;
  name = shown_name names u;
  privilege = u.privilege;
  role_label =
      if u.privilege == 14
      then codes "Super Admin"
      else if u.privilege == 2
      then codes "Manager"
      else codes "Normal User";
  card = u.card;
  finger_count = length (fids_of templates u.uid);
  finger_fids = fids_of templates u.uid;
}

-- The result of a `try` block with its `except`.
abbrev pub or_failed : {A : Type 0} → Option A → Result InventoryError A
or_failed (some a) = ok a
or_failed none = err connection_failed

module _ (D : Driver) where
  -- `if conn: try: conn.disconnect() ...`; nothing enables the reader again here
  unfoldable pub hang_up : M D (Unit {0})
  hang_up h =
      if is_open target h.log
      then (do attempt (run D target disconnect); pure tt) h
      else (some tt, h)

  unfoldable pub probe_body : Specs D → Resolved → M D HwProbe
  probe_body S d = do
    connect D target d.ip d.port
    run D target disable
    name ← attempt (quietly D S.get_device_name)
    sn ← attempt (quietly D S.get_serialnumber)
    version ← attempt (quietly D S.get_fp_version)
    platform ← attempt (quietly D S.get_platform)
    users ← attempt (get_users D target)
    templates ← attempt (quietly D (D.get_templates target))
    run D target enable
    pure (record {
      ip = d.ip;
      port = d.port;
      device_name = answered_or (target_name d) (target_name d) name;
      serial_number = answered_or d.sn d.sn sn;
      user_count = length_or_zero users;
      finger_count = length_or_zero templates;
      fp_version = elim version [ some v ↦ v | none ↦ 10 ];
      platform = answered_or (codes "Unknown") (codes "N/A") platform;
    })

  -- `save_device_user_db` for each user with a name; what it raises is caught
  unfoldable pub remember_each : Text → List HwUser → M D (Unit {0})
  remember_each sn [] = pure tt
  remember_each sn (u ∷ users) =
      let rest = remember_each sn users in
      if is_empty (strip u.name) then rest else (do note (remembered sn u.user_id); rest)

  unfoldable pub fetch_body : Dict Text → Resolved → M D HwFetched
  fetch_body names d = do
    connect D target d.ip d.port
    run D target disable
    users ← get_users D target
    templates ← attempt (quietly D (D.get_templates target))
    remember_each d.sn users
    run D target enable
    pure (record {
      serial_number = d.sn;
      ip = d.ip;
      count = length (map (hw_listed names (or_none_at_all templates)) users);
      users = map (hw_listed names (or_none_at_all templates)) users;
    })

  -- A body with its `except` and its `finally`, from an empty log.
  unfoldable pub guarded : {A : Type 0} → Bool → M D A → Hw D → Result InventoryError A × Hw D
  unfolding hang_up
  guarded has_pyzk body h =
      let (o, h') = body (record h { log = [] }) in
      if has_pyzk then (or_failed o, (hang_up h').1) else (err no_pyzk, record h { log = [] })

  -- `probe_device_connection(..., simulate=False)`
  unfoldable pub probe_real :
      Specs D → Bool → Dict DeviceInfo → Text → ℕ → Hw D → Result InventoryError HwProbe × Hw D
  probe_real S has_pyzk registry device_id port =
      guarded has_pyzk (probe_body S (resolve_device registry port device_id))

  -- `fetch_device_users(..., simulate=False)`
  unfoldable pub fetch_real :
      Dict Text → Bool → Dict DeviceInfo → Text → ℕ → Hw D → Result InventoryError HwFetched × Hw D
  fetch_real names has_pyzk registry device_id port =
      guarded has_pyzk (fetch_body names (resolve_device registry port device_id))
