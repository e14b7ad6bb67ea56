-- ===== src/Sync/Ingest.antt =====
-- sync/push_ingest.py, `save_punches` of sync/lms_db.py and `_flush` of sync/supervisor.py. The LMS
-- database with its driver is an interface.
pub mod Kept
use pumo_bio_metric.Prelude.{
  ℕ, ◌≡◌, ◌≤◌, Bool, true, false, ◌&&◌, List, [], ◌∷◌, if◌then◌else◌, Option, none, some, Result,
  ok, err, length, all,
}
use pumo_bio_metric.Text.{Text, codes, is_empty, strip, startswith}
use pumo_bio_metric.Text.Numbers.{ℤ, pos, int}
use pumo_bio_metric.Sync.Time.{DateTime, parse_time}
use pumo_bio_metric.Sync.Punch.{Scalar, null, number, text, Line, LineError, Punch}
use pumo_bio_metric.Sync.Spool.{Fault, add, drain}

-- How `execute_values` with the commit after it ends: with the ids of the rows that are new, an error of
-- the driver, or any other error.
pub data Outcome : Type 0 where
  inserted : ℕ → Outcome
  driver_error other_error : Outcome

-- The table biometric_punch_log behind its driver.
pub record Lms : Type 1 where
  pub Table : Type 0
  -- whether a row has the serial, the user and the time of a punch
  pub stored : Table → Punch → Bool
  pub execute_values : Table → List Punch → Outcome × Table
  -- an insertion that succeeds leaves a row for each punch, and counts new rows only
  pub insert_stores :
      (t t' : Table) (ps : List Punch) (n : ℕ)
      → execute_values t ps ≡ (inserted n, t')
      → all (stored t') ps ≡ true
  -- no insertion removes a row
  pub insert_keeps :
      (t : Table) (ps : List Punch) (p : Punch)
      → stored t p ≡ true
      → stored (execute_values t ps).1 p ≡ true

-- `LmsUnavailableError`, or another exception
pub data SaveError : Type 0 where
  unavailable unexpected : SaveError

-- A row of `parse_attlog`; a key that is missing is `none`.
pub record Row : Type 0 where
  pub user_id : Option Text
  pub timestamp : Option Text
  pub sn : Option Text
  pub user_name : Option Text
  pub status : Option Text
  pub verify_type : Option Text
  pub work_code : Option Text
  pub raw : Option Text

-- `value or ""`
abbrev pub or_empty : Option Text → Text
or_empty none = []
or_empty (some s) = s

-- `value or default`
abbrev pub or_default : Text → Option Text → Text
or_default d none = d
or_default d (some s) = if is_empty s then d else s

-- `_as_int(value)`: the text "None" of a missing value is not a number.
unfoldable pub as_int : Option Text → Option ℤ
unfolding int
as_int none = none
as_int (some s) = int s

abbrev pub number_or_null : Option ℤ → Scalar
number_or_null none = null
number_or_null (some n) = number n

-- `_as_int(value, 0) or 0`
abbrev pub number_or_zero : Option ℤ → ℤ
number_or_zero none = pos 0
number_or_zero (some n) = n

unfoldable pub reader_name : Option Text → Scalar
unfolding startswith
reader_name none = null
reader_name (some s) = if startswith s (codes "User ") then null else text s

abbrev pub text_or_null : Option Text → Scalar
text_or_null none = null
text_or_null (some s) = if is_empty s then null else text s

abbrev pub punch_at : Row → Text → Option DateTime → Option Punch
punch_at r [] t = none
punch_at r (c ∷ pin) none = none
punch_at r (c ∷ pin) (some t) = some (record {
  device_serial = text (or_default (codes "UNKNOWN") (some (strip (or_empty r.sn))));
  device_user_id = c ∷ pin;
  device_time = t;
  punch_state = number_or_zero (as_int r.status);
  verify_mode = number_or_null (as_int r.verify_type);
  work_code = text (or_default (codes "0") r.work_code);
  device_user_name = reader_name r.user_name;
  device_id = null;
  raw_payload = text_or_null r.raw;
})

-- `to_punch`
unfoldable pub to_punch : Row → Option Punch
unfolding strip parse_time as_int
to_punch r = punch_at r (strip (or_empty r.user_id)) (parse_time (or_empty r.timestamp))

abbrev cons_some : Option Punch → List Punch → List Punch
cons_some none ps = ps
cons_some (some p) ps = p ∷ ps

-- `[p for p in (to_punch(r) for r in records) if p is not None]`
unfoldable pub usable : List Row → List Punch
unfolding to_punch
usable [] = []
usable (r ∷ rs) = cons_some (to_punch r) (usable rs)

module _ (L : Lms) where
  -- The spool's file and the table.
  pub record State : Type 0 where
    pub file : List Line
    pub table : L.Table

  abbrev pub saved : ℕ → Outcome × L.Table → Result SaveError (ℕ × ℕ) × L.Table
  saved offered (inserted n, t) = (ok (offered, n), t)
  saved offered (driver_error, t) = (err unavailable, t)
  saved offered (other_error, t) = (err unexpected, t)

  -- `LmsDatabase.save_punches`
  unfoldable pub save_punches : L.Table → List Punch → Result SaveError (ℕ × ℕ) × L.Table
  save_punches t [] = (ok (0, 0), t)
  save_punches t (p ∷ ps) = saved (length (p ∷ ps)) (L.execute_values t (p ∷ ps))

  abbrev pub ingest_new :
      List Punch → List Line → Result SaveError (ℕ × ℕ) × L.Table → (ℕ × ℕ) × State
  ingest_new punches file (ok (offered, n), t) =
      ((length punches, n), record { file = file; table = t })
  ingest_new punches file (err e, t) =
      ((length punches, 0), record { file = add punches file; table = t })

  abbrev pub ingest_waiting :
      List Punch → List Punch → List Line → Result SaveError (ℕ × ℕ) × L.Table → (ℕ × ℕ) × State
  ingest_waiting punches waiting file (ok _, t) = ingest_new punches file (save_punches t punches)
  ingest_waiting punches waiting file (err unavailable, t) =
      ((length punches, 0), record { file = add punches (add waiting file); table = t })
  ingest_waiting punches waiting file (err unexpected, t) =
      ((length punches, 0), record { file = add punches file; table = t })

  abbrev pub ingest_drained :
      List Punch → L.Table → Result LineError (List Punch) × List Line → (ℕ × ℕ) × State
  ingest_drained punches t (err e, file) =
      ((length punches, 0), record { file = add punches file; table = t })
  ingest_drained punches t (ok waiting, file) =
      ingest_waiting punches waiting file (save_punches t waiting)

  abbrev pub ingest_punches : Fault → List Punch → State → (ℕ × ℕ) × State
  ingest_punches fault [] s = ((0, 0), s)
  ingest_punches fault (p ∷ ps) s = ingest_drained (p ∷ ps) s.table (drain fault s.file)

  -- `ingest`; `active` says that the bridge is enabled and configured
  unfoldable pub ingest : Bool → Fault → List Row → State → (ℕ × ℕ) × State
  ingest active fault records s =
      if active then ingest_punches fault (usable records) s else ((0, 0), s)

  -- What `_flush` raises.
  pub data FlushError : Type 0 where
    drain_error : LineError → FlushError
    save_error : SaveError → FlushError

  abbrev pub flush_waiting :
      List Punch → List Line → Result SaveError (ℕ × ℕ) × L.Table → Result FlushError ℕ × State
  flush_waiting waiting file (ok (offered, n), t) = (ok n, record { file = file; table = t })
  flush_waiting waiting file (err e, t) =
      (err (save_error e), record { file = add waiting file; table = t })

  abbrev pub flush_drained :
      L.Table → Result LineError (List Punch) × List Line → Result FlushError ℕ × State
  flush_drained t (err e, file) = (err (drain_error e), record { file = file; table = t })
  flush_drained t (ok waiting, file) = flush_waiting waiting file (save_punches t waiting)

  -- `SyncSupervisor._flush`, with the number of new rows for the log
  unfoldable pub flush : Fault → State → Result FlushError ℕ × State
  flush fault s = flush_drained s.table (drain fault s.file)
