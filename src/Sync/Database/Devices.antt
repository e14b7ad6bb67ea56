-- ===== src/Sync/Database/Devices.antt =====
-- The statements of `heartbeat` and `record_traffic_error` on the table biometric_devices. `now()` is a number.
use pumo_bio_metric.Prelude.{
  ℕ, zero, suc, ◌≡◌, refl, Bool, true, false, List, [], ◌∷◌, if◌then◌else◌, Option, none, some,
  arith, any, find?, update_all, any-find?,
}
use mathlib.Core.Option
use pumo_bio_metric.Text.{Text, same, same_iff}

pub record Device : Type 0 where
  pub serial_no : Text
  pub last_seen_at : Option ℕ
  pub offline_alerted_at : Option ℕ
  pub last_error : Option Text
  pub ip_address : Option Text
  pub model : Option Text
  pub firmware : Option Text

abbrev pub has_serial_no : Text → Device → Bool
has_serial_no serial d = same d.serial_no serial

-- `COALESCE(a, b)`
abbrev pub coalesce : Option Text → Option Text → Option Text
coalesce none b = b
coalesce (some a) b = some a

-- What `heartbeat` is told of a reader.
pub record Contact : Type 0 where
  pub ip_address : Option Text
  pub model : Option Text
  pub firmware : Option Text

abbrev pub seen : ℕ → Contact → Device → Device
seen now c d = record d {
  last_seen_at = some now;
  offline_alerted_at = none;
  last_error = none;
  ip_address = coalesce c.ip_address d.ip_address;
  model = coalesce c.model d.model;
  firmware = coalesce c.firmware d.firmware;
}

-- `heartbeat`, once it is committed: the result is `cur.rowcount > 0`
unfoldable pub heartbeat : ℕ → Text → Contact → List Device → Bool × List Device
heartbeat now serial c devices =
    (any (has_serial_no serial) devices, update_all (has_serial_no serial) (seen now c) devices)

-- `message[:n]`
unfoldable pub first_codes : ℕ → Text → Text
first_codes zero s = []
first_codes (suc n) [] = []
first_codes (suc n) (c ∷ s) = c ∷ first_codes n s

abbrev pub failed_with : Text → Device → Device
failed_with message d = record d { last_error = some (first_codes 300 message) }

-- `record_traffic_error`, once it is committed
unfoldable pub record_traffic_error : Text → Text → List Device → List Device
record_traffic_error serial message = update_all (has_serial_no serial) (failed_with message)

-- What is known of a reader.
abbrev pub device_at : Text → List Device → Option Device
device_at serial = find? (has_serial_no serial)

-- A change of the row of one serial number, read at any serial number.
update-device_at :
    (f : Device → Device) (serial q : Text) (devices : List Device)
    → ((d : Device) → (f d).serial_no ≡ d.serial_no)
    → device_at q (update_all (has_serial_no serial) f devices)
      ≡ (if same serial q then Option.map f (device_at q devices) else device_at q devices)
unfolding find? update_all
update-device_at f serial q [] h = ground arith
update-device_at f serial q (d ∷ devices) h = ground (
  arith,
  update-device_at f serial q devices h,
  h d,
  same_iff d.serial_no serial,
  same_iff d.serial_no q,
  same_iff serial q,
)

any-device_at :
    (serial : Text) (devices : List Device)
    → any (has_serial_no serial) devices
      ≡ elim (device_at serial devices) [ some _ ↦ true | none ↦ false ]
any-device_at serial devices = any-find? (has_serial_no serial) devices

map-map :
    (f g : Device → Device) (o : Option Device)
    → Option.map g (Option.map f o) ≡ Option.map (λ d. g (f d)) o
map-map f g none = refl
map-map f g (some d) = refl

heartbeat-record_traffic_error :
    (now : ℕ) (serial q message : Text) (c : Contact) (devices : List Device)
    → device_at q (record_traffic_error serial message (heartbeat now serial c devices).1) ≡ (
        if same serial q
        then Option.map (λ d. failed_with message (seen now c d)) (device_at q devices)
        else device_at q devices)
unfolding heartbeat record_traffic_error
heartbeat-record_traffic_error now serial q message c devices = ground (
  arith,
  update-device_at (seen now c) serial q devices (λ d. refl),
  update-device_at (failed_with message) serial q
      (update_all (has_serial_no serial) (seen now c) devices) (λ d. refl),
  map-map (seen now c) (failed_with message) (device_at q devices),
)

-- A contact is reported as that of a registered reader exactly if the table has its serial number; that row then
-- has the time of the contact, no alert and no error, and what the reader told where it told something, and
-- every other row is as before. A traffic error that follows leaves all of this but `last_error` as the contact
-- left it, which gets the first 300 characters of the message.
pub heartbeat-device_at :
    (now : ℕ) (serial q message : Text) (c : Contact) (devices : List Device)
    → ((heartbeat now serial c devices).0
        ≡ elim (device_at serial devices) [ some _ ↦ true | none ↦ false ])
      × (device_at q (heartbeat now serial c devices).1 ≡ (
          if same serial q
          then Option.map (seen now c) (device_at q devices)
          else device_at q devices))
      × (device_at q (record_traffic_error serial message (heartbeat now serial c devices).1) ≡ (
          if same serial q
          then Option.map (λ d. failed_with message (seen now c d)) (device_at q devices)
          else device_at q devices))
unfolding heartbeat
heartbeat-device_at now serial q message c devices = (
  any-device_at serial devices,
  update-device_at (seen now c) serial q devices (λ d. refl),
  heartbeat-record_traffic_error now serial q message c devices,
)
