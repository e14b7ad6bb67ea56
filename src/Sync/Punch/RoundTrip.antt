-- ===== src/Sync/Punch/RoundTrip.antt =====
-- Reading back a line that `Punch.to_json` wrote.
use pumo_bio_metric.Prelude.{◌≡◌, refl, ok}
use pumo_bio_metric.Text.{same}
use pumo_bio_metric.Sync.Time.RoundTrip.{IsWritable, strptime-strftime}
use pumo_bio_metric.Sync.Punch.{Punch, to_json, from_json, time_of, int_or_zero}

-- `from_json` returns the punch from the line that `to_json` wrote for it, if the time of the punch
-- is a valid one of a year with four digits.
pub from_json-to_json : (p : Punch) → IsWritable p.device_time → from_json (to_json p) ≡ ok p
unfolding from_json time_of int_or_zero same
from_json-to_json p w = rw (strptime-strftime p.device_time w) refl
