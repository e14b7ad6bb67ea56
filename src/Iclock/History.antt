-- ===== src/Iclock/History.antt =====
-- The punches that the service keeps: `_log_timestamp`, `prune_punch_logs`, `broadcast_punch`,
-- `get_punches` and `clear_punches`.
pub mod Pruned
use Prim.Native.Nat.{max, min}
use pumo_bio_metric.Prelude.{
  ℕ, ◌+◌, ◌-◌, ◌*◌, leb, Bool, true, List, [], ◌∷◌, ◌++◌, length, filter_by, if◌then◌else◌, Option,
  none, some,
}
use pumo_bio_metric.Text.{Text, codes, strip, is_empty}
use pumo_bio_metric.Text.Split.{replace_code}
use pumo_bio_metric.Dict
use pumo_bio_metric.Dict.{Dict}
use pumo_bio_metric.Iclock.{UserInfo, PunchRow, Iclock, Outside, is_default_name, save_punches}
use pumo_bio_metric.Iclock.Names.{name_in, get_user_info}

-- `datetime.fromisoformat`: the instant in seconds since `datetime.min`, or `none` for the
-- `ValueError`.
abbrev pub Iso : Type 0
Iso = Text → Option ℕ

abbrev pub or_parse : Iso → Text → Option ℕ → Option ℕ
or_parse iso raw none = iso (replace_code b'/' b'-' raw)
or_parse iso raw (some t) = some t

-- `_log_timestamp`
unfoldable pub log_timestamp : Iso → PunchRow → Option ℕ
log_timestamp iso p =
    let raw = strip p.timestamp in if is_empty raw then none else or_parse iso raw (iso raw)

abbrev pub is_since : ℕ → Option ℕ → Bool
is_since cutoff none = true
is_since cutoff (some t) = leb cutoff t

-- `_log_timestamp(punch) or datetime.min`
abbrev pub sort_key : Option ℕ → ℕ
sort_key none = 0
sort_key (some t) = t

-- `now - timedelta(days=days)`
abbrev pub days_before : ℕ → ℕ → ℕ
days_before now days = now - days * 86400

-- `PUNCH_STATUS_MAP` and `VERIFY_MODES`
unfoldable pub status_labels : Dict Text
status_labels =
    (codes "0", codes "Check-In")
    ∷ (codes "1", codes "Check-Out")
    ∷ (codes "2", codes "Break-Out")
    ∷ (codes "3", codes "Break-In")
    ∷ (codes "4", codes "Overtime-In")
    ∷ (codes "5", codes "Overtime-Out")
    ∷ (codes "255", codes "Present (Auto Attendance)")
    ∷ []

unfoldable pub verify_modes : Dict Text
verify_modes =
    (codes "0", codes "Password / PIN")
    ∷ (codes "1", codes "Fingerprint")
    ∷ (codes "2", codes "RFID Card")
    ∷ (codes "3", codes "Password")
    ∷ (codes "4", codes "Face Recognition")
    ∷ (codes "15", codes "Face / Palm")
    ∷ (codes "255", codes "Standard Biometric")
    ∷ []

abbrev pub label_or : Text → Option Text → Text
label_or default none = default
label_or default (some l) = l

module _ (iso : Iso) where
  abbrev pub key : PunchRow → ℕ
  key p = sort_key (log_timestamp iso p)

  unfoldable pub insert_latest : PunchRow → List PunchRow → List PunchRow
  insert_latest p [] = p ∷ []
  insert_latest p (q ∷ qs) =
      let rest = insert_latest p qs in if leb (key q) (key p) then p ∷ q ∷ qs else q ∷ rest

  -- `list.sort(..., reverse=True)`, which keeps the order of equal keys
  unfoldable pub latest_first : List PunchRow → List PunchRow
  unfolding insert_latest
  latest_first [] = []
  latest_first (p ∷ ps) = insert_latest p (latest_first ps)

  -- `prune_punch_logs`
  unfoldable pub prune : ℕ → ℕ → List PunchRow → List PunchRow
  prune now days ps =
      latest_first
        (filter_by (λ p. is_since (days_before now (max 1 days)) (log_timestamp iso p)) ps)

  -- The name that the punch gets; its row has one already.
  abbrev pub known_name : Text → UserInfo → Text
  known_name own u = elim (u.name) [
    | some n ↦ if is_default_name own then (if is_default_name n then own else n) else own
    | none ↦ own
  ]

  unfoldable pub completed : UserInfo → PunchRow → PunchRow
  completed u p = record p {
    user_name = known_name p.user_name u;
    status_label = some (label_or (codes "Status " ++ p.status) (Dict.get status_labels p.status));
    verify_label =
        some (label_or (codes "Verify " ++ p.verify_type) (Dict.get verify_modes p.verify_type));
  }

  -- `broadcast_punch`, without the queues of the browsers
  unfoldable pub broadcast_punch : Outside → ℕ → PunchRow → Iclock → Iclock
  broadcast_punch out now p s =
      let (u, s') = get_user_info out (strip p.user_id) s in
      save_punches out (record s' { punches = prune now 30 (completed u p ∷ s'.punches) })

  -- `get_punches`: the window and the rows
  unfoldable pub get_punches : ℕ → ℕ → Iclock → ℕ × List PunchRow
  get_punches now days s =
      let window = min (max days 1) 30 in
      (window, filter_by (λ p. is_since (days_before now window) (log_timestamp iso p)) s.punches)

-- `clear_punches`
unfoldable pub clear_punches : Outside → Iclock → Iclock
clear_punches out s = save_punches out (record s { punches = [] })
