-- ===== src/Tests/Bridge.antt =====
-- The theorems on the way of a punch into the database at concrete inputs.
use pumo_bio_metric.Sync.Supervisor.Lifecycle.{
  Supervisor, Move, run, step, stop, wake, look, begin, flushed, enter, waiting, holding, begun,
  is_at, change, stopped-begun,
}
use pumo_bio_metric.Dict
use pumo_bio_metric.Sync.Liveness.{Liveness}
use pumo_bio_metric.Tests.Database.{memory, Server, up, down, insert_rows}
use pumo_bio_metric.Prelude.{
  List, [], all, any, arith, count_by, false, map, none, ok, refl, some, true, ◌++◌, ◌∷◌, ◌≡◌, ◌⊎◌,
  ◌≤◌,
}
use pumo_bio_metric.Sync.Time.{
  DateTime, blank_digit, days_in_month, four_digits, is_valid, match_format, one_digit, parse_time,
  skip_blanks, strptime, try_formats, two_digits,
}
use pumo_bio_metric.Dict.{Dict}
use pumo_bio_metric.Sync.Ingest.Kept.{Kept, are_stored, flush-kept, ingest-Kept}
use pumo_bio_metric.Sync.Punch.{Punch, null, number, scalar, text, to_json}
use pumo_bio_metric.Sync.Ingest.{
  Row, State, as_int, flush, ingest, reader_name, save_punches, to_punch, usable,
}
use pumo_bio_metric.Sync.Spool.{add, drain, no_fault, read_lines}
use pumo_bio_metric.Text.{codes, is_digit, is_space, lstrip, rstrip, startswith, strip}
use pumo_bio_metric.Text.Numbers.{digits_value, int, pos, signed_value}
use pumo_bio_metric.Sync.Spool.Drain.{drain-add}
use pumo_bio_metric.Sync.Punch.RoundTrip.{from_json-to_json}
use pumo_bio_metric.Tests.Data.{pin_102, pin_9999, serial_1}

abbrev noon : DateTime
noon = record { year = 2026; month = 1; day = 31; hour = 12; minute = 5; second = 0 }

abbrev held : Punch
held = record {
  device_serial = text serial_1;
  device_user_id = pin_102;
  device_time = noon;
  punch_state = pos 0;
  verify_mode = null;
  work_code = text (codes "0");
  device_user_name = null;
  device_id = null;
  raw_payload = null;
}

abbrev pushed : Punch
pushed = record held { device_user_id = pin_9999; verify_mode = number (pos 1) }

abbrev row : Row
row = record {
  user_id = some (codes " 9999");
  timestamp = some (codes "2026-01-31 12:05:00");
  sn = some serial_1;
  user_name = some (codes "User 9999");
  status = none;
  verify_type = some (codes "1");
  work_code = none;
  raw = none;
}

abbrev waiting_on : Server → State memory
waiting_on server = record {
  file = to_json held ∷ [];
  table = record { server = server; rows = [] };
}

abbrev spoiled : State memory
spoiled = record {
  file = to_json held ∷ scalar null ∷ [];
  table = record { server = up; rows = [] };
}

noon_is_writable : is_valid noon ≡ true
unfolding is_valid days_in_month
noon_is_writable = refl

read_lines-held : read_lines (to_json held ∷ []) ≡ ok (held ∷ [])
unfolding read_lines
read_lines-held =
    rw (from_json-to_json held (record { year_low = ground arith; valid = noon_is_writable })) refl

drain-add_example :
    drain no_fault (add (pushed ∷ []) (to_json held ∷ [])) ≡ (ok ((held ∷ []) ++ (pushed ∷ [])), [])
unfolding is_valid all days_in_month
drain-add_example = drain-add (to_json held ∷ []) (held ∷ []) (pushed ∷ []) read_lines-held refl

ingest-Kept_example :
    Kept memory (held ∷ []) (pushed ∷ []) (ingest memory true no_fault (row ∷ []) (waiting_on up)).1
unfolding usable to_punch strip is_space lstrip rstrip parse_time try_formats strptime match_format
    two_digits one_digit four_digits blank_digit skip_blanks is_valid days_in_month is_digit as_int
    int signed_value digits_value reader_name startswith save_punches insert_rows any
ingest-Kept_example =
    ingest-Kept memory (row ∷ []) (waiting_on up) (held ∷ []) pushed [] read_lines-held refl
      (λ e. ground (arith, e))

flush-kept_example :
    (are_stored memory (flush memory no_fault (waiting_on down)).1.table (held ∷ []) ≡ true)
    ⊎ ((flush memory no_fault (waiting_on down)).1.file ≡ map to_json (held ∷ []))
flush-kept_example = flush-kept memory (waiting_on down) (held ∷ []) read_lines-held

abbrev seen : Liveness
seen = record { last_write = (serial_1, 90) ∷ []; warned = []; submitted = [] }

-- The first thread has counted the spool before the stop, and the second is in its wait.
abbrev supervisor : Supervisor
supervisor = record { stopping = false; loops = holding ∷ waiting ∷ [] }

abbrev after_stop : List Move
after_stop = wake 1 ∷ look 1 ∷ begin 0 ∷ flushed 0 true ∷ enter 0 ∷ []

stopped-begun_example :
    ((run true after_stop (step true stop supervisor)).stopping ≡ true)
    × (begun true after_stop (step true stop supervisor) ≤ 1)
unfolding all count_by
stopped-begun_example = stopped-begun true after_stop supervisor refl

-- A flush that begins after the stop.
begun_lem : begun true after_stop (step true stop supervisor) ≡ 1
unfolding begun step is_at change
begun_lem = refl
