-- ===== src/Sync/Punch.antt =====
-- The class Punch of sync/models.py, and a line of the spool as `json.loads` returns it. A field of a
-- line is null, a whole number or a text: the values that `to_json` writes. The dataclass does not
-- check its annotations, so the fields that `from_json` passes on keep the value of the line.
pub mod RoundTrip
use pumo_bio_metric.Prelude.{
  Option, none, some, List, [], ◌∷◌, ◌++◌, suc, if◌then◌else◌, Result, ok, err, true, false,
}
use pumo_bio_metric.Text.{Text, codes, is_empty}
use pumo_bio_metric.Text.Numbers.{ℤ, pos, negsuc, int, str}
use pumo_bio_metric.Dict.{Dict, get}
use pumo_bio_metric.Sync.Time.{DateTime, strptime, iso_format, strftime}

pub data Scalar : Type 0 where
  null : Scalar
  number : ℤ → Scalar
  text : Text → Scalar

pub data Line : Type 0 where
  blank not_json : Line
  scalar : Scalar → Line
  object : Dict Scalar → Line

pub record Punch : Type 0 where
  pub device_serial : Scalar
  pub device_user_id : Text
  pub device_time : DateTime
  pub punch_state : ℤ
  pub verify_mode : Scalar
  pub work_code : Scalar
  pub device_user_name : Scalar
  pub device_id : Scalar
  pub raw_payload : Scalar

-- `Punch.to_json`
abbrev pub to_json : Punch → Line
to_json p = object (
    (codes "device_serial", p.device_serial)
    ∷ (codes "device_user_id", text p.device_user_id)
    ∷ (codes "device_time", text (strftime p.device_time))
    ∷ (codes "punch_state", number p.punch_state)
    ∷ (codes "verify_mode", p.verify_mode)
    ∷ (codes "work_code", p.work_code)
    ∷ (codes "device_user_name", p.device_user_name)
    ∷ (codes "device_id", p.device_id)
    ∷ (codes "raw_payload", p.raw_payload)
    ∷ [])

-- What `from_json` raises: a `ValueError` or `KeyError`, or a `TypeError`.
pub data LineError : Type 0 where
  bad_line type_error : LineError

-- `str(value)`
unfoldable pub str_scalar : Scalar → Text
unfolding str
str_scalar null = codes "None"
str_scalar (number (pos n)) = str n
str_scalar (number (negsuc n)) = b'-' ∷ str (suc n)
str_scalar (text s) = s

-- `int(value or 0)`
unfoldable pub int_or_zero : Scalar → Option ℤ
unfolding int
int_or_zero null = some (pos 0)
int_or_zero (number n) = some n
int_or_zero (text s) = if is_empty s then some (pos 0) else int s

-- `raw.get(key)`
abbrev pub or_null : Option Scalar → Scalar
or_null none = null
or_null (some v) = v

-- `datetime.strptime(value, "%Y-%m-%d %H:%M:%S")`
unfoldable pub time_of : Scalar → Result LineError DateTime
time_of (text s) = parsed (strptime iso_format s)
  where
    parsed : Option DateTime → Result LineError DateTime
    parsed none = err bad_line
    parsed (some t) = ok t
time_of _ = err type_error

abbrev punch_of :
    Dict Scalar → Scalar → Scalar → Result LineError DateTime → Option ℤ → Result LineError Punch
punch_of raw serial user (err e) state = err e
punch_of raw serial user (ok t) none = err bad_line
punch_of raw serial user (ok t) (some n) = ok (record {
  device_serial = serial;
  device_user_id = str_scalar user;
  device_time = t;
  punch_state = n;
  verify_mode = or_null (get raw (codes "verify_mode"));
  work_code = or_null (get raw (codes "work_code"));
  device_user_name = or_null (get raw (codes "device_user_name"));
  device_id = or_null (get raw (codes "device_id"));
  raw_payload = or_null (get raw (codes "raw_payload"));
})

abbrev fields_of :
    Dict Scalar → Option Scalar → Option Scalar → Option Scalar → Result LineError Punch
fields_of raw (some serial) (some user) (some time) =
    punch_of raw serial user (time_of time) (int_or_zero (or_null (get raw (codes "punch_state"))))
fields_of raw _ _ _ = err bad_line

-- `Punch.from_json`
unfoldable pub from_json : Line → Result LineError Punch
unfolding get str_scalar
from_json (object raw) =
    fields_of raw (get raw (codes "device_serial")) (get raw (codes "device_user_id"))
      (get raw (codes "device_time"))
from_json (scalar _) = err type_error
from_json _ = err bad_line
