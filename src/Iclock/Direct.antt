-- ===== src/Iclock/Direct.antt =====
-- What the service reads from a reader itself: the names of users and the punches of
-- `sync_device_punches`, and `set_user_name`.
pub mod Once
use pumo_bio_metric.Prelude.{
  ℕ, ◌+◌, ◌==◌, Bool, true, false, not, ◌&&◌, ◌||◌, List, [], ◌∷◌, ◌++◌, any, map, ltb, length,
  update_all, count_by, if◌then◌else◌, Option, none, some,
}
use pumo_bio_metric.Text.{Text, codes, same, strip, is_empty}
use pumo_bio_metric.Text.Numbers.{pos}
use pumo_bio_metric.Dict
use pumo_bio_metric.Dict.{Dict}
use pumo_bio_metric.Hardware.{HwUser}
use pumo_bio_metric.Iclock.{
  UserInfo, PunchRow, Iclock, Outside, is_default_name, save_user_cache, save_punches,
}
use pumo_bio_metric.Iclock.Names.{name_in, role_in, get_user_info}
use pumo_bio_metric.Iclock.Userinfo.{is_of, role_label}
use pumo_bio_metric.Iclock.History.{
  Iso, label_or, status_labels, verify_modes, completed, broadcast_punch, prune,
}

-- `pin not in DEVICE_USER_CACHE or existing_name.startswith("User ") or not existing_name`
abbrev pub is_nameless : Option UserInfo → Bool
is_nameless none = true
is_nameless (some u) = elim (u.name) [ some n ↦ is_default_name n | none ↦ true ]

abbrev pub rename : Text → Text → Text → Iclock → Iclock
rename pin name role s = record s {
  users = Dict.put s.users pin (record { name = some name; role = some role });
  punches = update_all (is_of pin) (λ p. record p { user_name = name; user_role = role }) s.punches;
}

-- A user of the reader is taken over when its name says more than what is known.
unfoldable pub discover_one : HwUser → Iclock → Bool × Iclock
discover_one u s =
    let pin = strip u.user_id in
    let name = strip u.name in
    if is_empty pin || is_empty name
    then (false, s)
    else if is_nameless (Dict.get s.users pin)
    then (true, rename pin name (role_label (some (pos u.privilege))) s)
    else (false, s)

unfoldable pub discover_each : List HwUser → Iclock → ℕ × Iclock
discover_each [] s = (0, s)
discover_each (u ∷ us) s =
    let (learned, s') = discover_one u s in
    let (n, s'') = discover_each us s' in ((if learned then 1 else 0) + n, s'')

-- The loop over the users, and the files.
unfoldable pub discover : Outside → List HwUser → Iclock → ℕ × Iclock
discover out us s =
    let (n, s') = discover_each us s in
    (n, if ltb 0 n then save_punches out (save_user_cache out s') else s')

-- An entry of `get_attendance`, as text.
pub record Attendance : Type 0 where
  pub user_id : Text
  pub timestamp : Text
  pub status : Text
  pub punch : Option Text

abbrev pub Key : Type 0
Key = Text × Text

abbrev pub same_key : Key → Key → Bool
same_key (a, b) (c, d) = same a c && same b d

abbrev pub row_key : PunchRow → Key
row_key p = (p.user_id, p.timestamp)

abbrev pub record_key : Attendance → Key
record_key r = (r.user_id, r.timestamp)

abbrev pub is_known : Key → List Key → Bool
is_known k = any (same_key k)

abbrev pub punch_or : Text → Option Text → Text
punch_or default none = default
punch_or default (some p) = p

-- `punch_obj`
abbrev pub punch_row : Text → Attendance → UserInfo → PunchRow
punch_row sn r u = record {
  sn = sn;
  user_id = r.user_id;
  user_name = name_in r.user_id u;
  user_role = role_in u;
  timestamp = r.timestamp;
  status = r.status;
  verify_type = punch_or (codes "1") r.punch;
  work_code = codes "0";
  raw =
      r.user_id
      ++ (9
          ∷ (r.timestamp
              ++ (9 ∷ (r.status ++ (9 ∷ (punch_or (codes "None") r.punch ++ codes "\t0"))))));
  status_label = some (label_or (codes "Check-In") (Dict.get status_labels r.status));
  verify_label =
      some (label_or (codes "Fingerprint") (Dict.get verify_modes (punch_or (codes "1") r.punch)));
}

module _ (iso : Iso) (out : Outside) (now : ℕ) (sn : Text) where
  -- The row that is broadcast and then handed to `ingest`, which broadcasting has completed.
  abbrev pub take_record : Attendance → Iclock → PunchRow × Iclock
  take_record r s =
      let (u, s') = get_user_info out r.user_id s in
      let p = punch_row sn r u in
      (completed iso (get_user_info out (strip p.user_id) s').0 p, broadcast_punch iso out now p s')

  -- The loop over the records, with the keys that are known.
  unfoldable pub take_records : List Key → List Attendance → Iclock → List PunchRow × Iclock
  take_records keys [] s = ([], s)
  take_records keys (r ∷ rs) s =
      let known = is_known (record_key r) keys in
      let (p, s') = take_record r s in
      let (rows, s'') =
        take_records (if known then keys else record_key r ∷ keys) rs (if known then s else s') in
      (if known then rows else p ∷ rows, s'')

  abbrev pub save_pruned : List PunchRow → Iclock → Iclock
  save_pruned [] s = s
  save_pruned (_ ∷ _) s = save_punches out (record s { punches = prune iso now 30 s.punches })

  -- `sync_device_punches` after the reader has answered: the rows for `ingest`, one by one
  unfoldable pub sync_punches : List HwUser → List Attendance → Iclock → List PunchRow × Iclock
  sync_punches users records s =
      let s' = (discover out users s).1 in
      let (rows, s'') = take_records (map row_key s'.punches) records s' in
      (rows, save_pruned rows s'')

abbrev pub known_role : Option UserInfo → Text
known_role none = codes "Normal User"
known_role (some u) = role_in u

abbrev pub entry_for : Text → Text → Text → UserInfo
entry_for name role known = record {
  name = some name;
  role = some (if is_empty role then known else role);
}

abbrev pub set_name : Text → Text → PunchRow → PunchRow
set_name name role p = record p {
  user_name = name;
  user_role = if is_empty role then p.user_role else role;
}

-- `set_user_name`, which answers how many punches it changed; `none` for a missing PIN or name
unfoldable pub set_user_name : Outside → Text → Text → Text → Iclock → Option ℕ × Iclock
set_user_name out user_id name role s =
    let pin = strip user_id in
    let r = strip role in
    let known = known_role (Dict.get s.users pin) in
    let s' =
      save_user_cache out
        (record s { users = Dict.put s.users pin (entry_for (strip name) r known) }) in
    if is_empty pin || is_empty (strip name) then (none, s) else (
      some (count_by (is_of pin) s.punches),
      save_punches out
          (record s' { punches = update_all (is_of pin) (set_name (strip name) r) s'.punches }),
    )
