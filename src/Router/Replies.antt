-- ===== src/Router/Replies.antt =====
-- What the routes of app/router/migration.py answer, and the table biometric_device_users that
-- `/transfer-user` writes to. The texts of messages are left out.
use pumo_bio_metric.Prelude.{
  ℕ, Bool, true, false, not, ◌&&◌, List, [], ◌∷◌, ◌++◌, if◌then◌else◌, Option, none, some, any,
  filter_by, update_first,
}
use pumo_bio_metric.Text.{Text, codes, same}
use pumo_bio_metric.Dict.{Dict}
use pumo_bio_metric.Device.{DeviceInfo}
use pumo_bio_metric.Migration.{MigrationResult, is_ok}
use pumo_bio_metric.Router.Engine.{Engine}

-- An entry of the reply of `/devices`; `lastSeen` is left out.
pub record ListedDevice : Type 0 where
  pub sn : Text
  pub name : Text
  pub ip : Text
  pub port : ℕ

unfoldable pub listed_devices : Dict DeviceInfo → List ListedDevice
listed_devices [] = []
listed_devices ((sn, info) ∷ devices) =
    record {
      sn = sn;
      name = elim info.name [ some name ↦ name | none ↦ codes "Reader (" ++ (sn ++ codes ")") ];
      ip = info.ip;
      port = elim info.port [ some port ↦ port | none ↦ 4370 ];
    }
    ∷ listed_devices devices

-- The content of a reply, after the reading of the body.
pub data Content (E : Engine) : Type 0 where
  -- the result of the engine, as it is
  result : E.Reply → Content E
  -- the result of a deletion, with the key `success`
  deletion : E.Reply → Bool → Content E
  -- `ok`, the number of templates, and the results
  summary : Bool → ℕ → List MigrationResult → Content E
  one_result : MigrationResult → Content E
  no_result : Content E
  devices : List ListedDevice → Content E
  reset_done : Content E

-- What the content says under `ok`; the list of readers has no such key.
unfoldable pub says_ok : {E : Engine} → Content E → Bool
says_ok {E} (result r) = E.is_ok r
says_ok {E} (deletion r success) = E.is_ok r
says_ok (summary b n rs) = b
says_ok (one_result r) = is_ok r
says_ok no_result = false
says_ok (devices ds) = true
says_ok reset_done = true

-- A row of biometric_device_users.
pub record DeviceUser : Type 0 where
  pub device_serial : Option Text
  pub device_user_id : Text
  pub name : Text
  pub role : Text

abbrev pub has_serial : Text → DeviceUser → Bool
has_serial serial u = elim u.device_serial [ some s ↦ same s serial | none ↦ false ]

abbrev pub is_entry : Text → Text → DeviceUser → Bool
is_entry serial pin u = has_serial serial u && same u.device_user_id pin

-- `INSERT ... ON CONFLICT (device_serial, device_user_id) DO UPDATE SET name = EXCLUDED.name`;
-- the column `updated_at` is left out
unfoldable pub insert_user : Text → Text → Text → List DeviceUser → List DeviceUser
insert_user serial pin name users =
    if any (is_entry serial pin) users
    then update_first (is_entry serial pin) (λ u. record u { name = name }) users
    else users
      ++ (record {
        device_serial = some serial;
        device_user_id = pin;
        name = name;
        role = codes "Normal User";
      }
          ∷ [])

abbrev pub is_dropped : Text → Text → DeviceUser → Bool
is_dropped serial pin u =
    elim u.device_serial [ some s ↦ same s serial | none ↦ true ] && same u.device_user_id pin

-- `DELETE ... WHERE (device_serial = %s OR device_serial IS NULL) AND device_user_id = %s`
unfoldable pub drop_user : Text → Text → List DeviceUser → List DeviceUser
drop_user serial pin = filter_by (λ u. not (is_dropped serial pin u))
