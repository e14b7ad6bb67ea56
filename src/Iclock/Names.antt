-- ===== src/Iclock/Names.antt =====
-- `get_user_info`
use pumo_bio_metric.Prelude.{Bool, false, not, ◌++◌, if◌then◌else◌, Option, none, some}
use pumo_bio_metric.Text.{Text, codes, strip, is_empty}
use pumo_bio_metric.Dict
use pumo_bio_metric.Iclock.{UserInfo, Iclock, Outside, is_default_name, save_user_cache}

abbrev pub default_name : Text → Text
default_name pin = codes "User " ++ pin

-- `user_info.get("name", f"User {pin}")` and `user_info.get("role", "Normal User")`
abbrev pub name_in : Text → UserInfo → Text
name_in pin u = elim (u.name) [ some n ↦ n | none ↦ default_name pin ]

abbrev pub role_in : UserInfo → Text
role_in u = elim (u.role) [ some r ↦ r | none ↦ codes "Normal User" ]

abbrev pub has_real_name : Option UserInfo → Bool
has_real_name none = false
has_real_name (some u) = elim (u.name) [ some n ↦ not (is_default_name n) | none ↦ false ]

-- `row[1] or default`
abbrev pub role_or : Text → Text → Text
role_or default r = if is_empty r then default else r

abbrev pub learned : Text → Text × Text → UserInfo
learned default (name, r) = record { name = some (strip name); role = some (role_or default r) }

-- What the database knows of the user.
unfoldable pub asked : Option (Text × Text) → Option (Text × Text) → Option UserInfo
asked (some row) _ = some (learned (codes "Normal User") row)
asked none (some row) = some (learned (codes "Staff") row)
asked none none = none

abbrev pub cached_or_default : Text → Option UserInfo → UserInfo
cached_or_default pin (some u) = u
cached_or_default pin none = record {
  name = some (default_name pin);
  role = some (codes "Normal User");
}

abbrev pub remember : Outside → Text → Option UserInfo → Iclock → UserInfo × Iclock
remember out pin (some u) s = (u, save_user_cache out (record s { users = Dict.put s.users pin u }))
remember out pin none s = (cached_or_default pin (Dict.get s.users pin), s)

-- `get_user_info`
unfoldable pub get_user_info : Outside → Text → Iclock → UserInfo × Iclock
get_user_info out user_id s =
    let pin = strip user_id in
    if has_real_name (Dict.get s.users pin)
    then (cached_or_default pin (Dict.get s.users pin), s)
    else remember out pin (asked (out.device_user pin) (out.staff pin)) s
