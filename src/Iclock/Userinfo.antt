-- ===== src/Iclock/Userinfo.antt =====
-- `parse_userinfo`
pub mod Learned
use pumo_bio_metric.Prelude.{
  ℕ, ◌+◌, ◌==◌, Bool, true, false, not, ◌&&◌, ◌||◌, List, [], ◌∷◌, map, filter_by, length, ltb, leb,
  if◌then◌else◌, Option, none, some, update_all,
}
use pumo_bio_metric.Text.{Text, codes, same, strip, upper, has_code, is_empty}
use pumo_bio_metric.Text.Numbers.{ℤ, pos, int}
use pumo_bio_metric.Text.Split.{includes, split_on, words, cut, body_lines}
use pumo_bio_metric.Dict
use pumo_bio_metric.Dict.{Dict}
use pumo_bio_metric.Migration.{first_given}
use pumo_bio_metric.Iclock.{UserInfo, PunchRow, Iclock, Outside, is_default_name, save_user_cache}
use pumo_bio_metric.Iclock.Lines.{part_or, data_lines}

-- A user as a line names it.
pub record Named : Type 0 where
  pub pin : Text
  pub name : Text
  pub role : Text

-- v.strip('"')
unfoldable pub lstrip_quotes : Text → Text
lstrip_quotes [] = []
lstrip_quotes (c ∷ s) = let rest = lstrip_quotes s in if c == b'"' then rest else c ∷ s

unfoldable pub rstrip_quotes : Text → Text
rstrip_quotes [] = []
rstrip_quotes (c ∷ s) =
    let rest = rstrip_quotes s in if is_empty rest && c == b'"' then [] else c ∷ rest

abbrev pub strip_quotes : Text → Text
strip_quotes s = rstrip_quotes (lstrip_quotes s)

unfoldable pub add_quoted : Option (Text × Text) → Dict Text → Dict Text
add_quoted none kv = kv
add_quoted (some (k, v)) kv = Dict.put kv (upper (strip k)) (strip_quotes (strip v))

unfoldable pub quoted_values : List Text → Dict Text → Dict Text
quoted_values [] kv = kv
quoted_values (item ∷ items) kv = quoted_values items (add_quoted (cut b'=' item) kv)

-- The label of a privilege; one that is no integer counts as a normal user.
unfoldable pub role_label : Option ℤ → Text
role_label (some (pos n)) =
    if n == 14 then codes "Super Admin" else if n == 2 then codes "Manager" else codes "Normal User"
role_label _ = codes "Normal User"

abbrev pub given_name : Option Text → Text
given_name none = []
given_name (some n) = n

-- Key=value. An empty name or PIN stands for a missing one: both are skipped.
unfoldable pub key_value_user : Text → Named
key_value_user line =
    let kv = quoted_values (if has_code 9 line then split_on 9 line else words line) [] in
    record {
      pin = first_given (Dict.get kv (codes "PIN") ∷ Dict.get kv (codes "USERID") ∷ []) [];
      name = given_name (Dict.get kv (codes "NAME"));
      role = role_label (
          int (
            first_given (Dict.get kv (codes "PRI") ∷ Dict.get kv (codes "PRIVILEGE") ∷ [])
              (codes "0")));
    }

-- Tabs: PIN, name, password, card, privilege
unfoldable pub tab_user : List Text → Named
tab_user parts = record {
  pin = part_or [] 0 parts;
  name = part_or [] 1 parts;
  role = role_label (int (part_or (codes "0") 4 parts));
}

unfoldable pub named_by : Text → Named
named_by line =
    if includes (codes "PIN=") (upper line) || includes (codes "NAME=") (upper line)
    then key_value_user line
    else tab_user (map strip (split_on 9 line))

-- `pin and name and not name.startswith("User ")`
abbrev pub is_learned : Named → Bool
is_learned u = not (is_empty u.pin) && not (is_default_name u.name)

-- `str(p.get("userId", "")).strip() == pin`
abbrev pub is_of : Text → PunchRow → Bool
is_of pin p = same (strip p.user_id) pin

unfoldable pub learn : Named → Iclock → Iclock
learn u s = record s {
  users = Dict.put s.users u.pin (record { name = some u.name; role = some u.role });
  punches =
      update_all (is_of u.pin) (λ p. record p { user_name = u.name; user_role = u.role }) s.punches;
}

-- The loop over the lines, with the number of users that it learned. What `save_device_user_db`
-- writes to the database of the LMS is not in the state.
unfoldable pub learn_lines : List Text → Iclock → ℕ × Iclock
learn_lines [] s = (0, s)
learn_lines (line ∷ lines) s =
    let u = named_by line in
    let (n, s') = learn_lines lines (if is_learned u then learn u s else s) in
    ((if is_learned u then 1 else 0) + n, s')

-- `parse_userinfo`
unfoldable pub parse_userinfo : Outside → Text → Iclock → Iclock
unfolding learn_lines
parse_userinfo out body s =
    let (n, s') = learn_lines (data_lines body) s in if ltb 0 n then save_user_cache out s' else s'
