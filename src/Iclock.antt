-- ===== src/Iclock.antt =====
-- router/iclock.py apart from its queue of commands: the state that it keeps of users and punches.
pub mod Lines
pub mod Names
pub mod Attlog
pub mod History
pub mod Userinfo
pub mod Direct
pub mod Handlers
pub mod Background
pub mod Tabs
use pumo_bio_metric.Prelude.{Bool, true, List, [], ◌∷◌, if◌then◌else◌, Option}
use pumo_bio_metric.Text.{Text, codes, startswith}
use pumo_bio_metric.Dict.{Dict}

-- An entry of `DEVICE_USER_CACHE`. The other keys of an entry are not read by the code of this
-- model.
pub record UserInfo : Type 0 where
  pub name : Option Text
  pub role : Option Text

-- A punch as `parse_attlog` makes it and `broadcast_punch` completes it, without `id` and
-- `receivedAt`, which come from clocks and random numbers.
pub record PunchRow : Type 0 where
  pub sn : Text
  pub user_id : Text
  pub user_name : Text
  pub user_role : Text
  pub timestamp : Text
  pub status : Text
  pub verify_type : Text
  pub work_code : Text
  pub raw : Text
  pub status_label : Option Text
  pub verify_label : Option Text

-- `DEVICE_USER_CACHE`, `PUNCH_LOGS` and the files that they are written to
pub record Iclock : Type 0 where
  pub users : Dict UserInfo
  pub saved_users : Dict UserInfo
  pub punches : List PunchRow
  pub saved_punches : List PunchRow

-- Where the names of the users come from, and whether the files can be written.
pub record Outside : Type 0 where
  -- name and role of the rows that the two queries of `get_user_info` give, `none` where there is
  -- no row, no name, or the database fails
  pub device_user : Text → Option (Text × Text)
  pub staff : Text → Option (Text × Text)
  pub can_write : Bool

-- The name is missing or one that was made up.
abbrev pub is_default_name : Text → Bool
is_default_name [] = true
is_default_name (c ∷ name) = startswith (c ∷ name) (codes "User ")

-- `save_user_cache`
unfoldable pub save_user_cache : Outside → Iclock → Iclock
save_user_cache out s = if out.can_write then record s { saved_users = s.users } else s

-- The write of `LOGS_FILE`
unfoldable pub save_punches : Outside → Iclock → Iclock
save_punches out s = if out.can_write then record s { saved_punches = s.punches } else s
