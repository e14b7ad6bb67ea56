-- ===== src/Sync/Liveness.antt =====
-- The throttle of sync/liveness.py. Times are whole ticks of the monotonic clock; the writes that
-- `mark_seen` submits are run by one thread, in order.
pub mod Throttle
use pumo_bio_metric.Prelude.{
  ℕ, ◌+◌, Bool, true, false, not, ◌&&◌, ◌||◌, List, [], ◌∷◌, ◌++◌, ltb, if◌then◌else◌, Option, none,
  some, any,
}
use pumo_bio_metric.Text.{Text, same, is_empty}
use pumo_bio_metric.Dict
use pumo_bio_metric.Dict.{Dict}

-- Whether the last stamp is too recent: `now - previous < config.heartbeat_seconds`
abbrev pub is_recent : ℕ → ℕ → Option ℕ → Bool
is_recent heartbeat now none = false
is_recent heartbeat now (some previous) = ltb now (previous + heartbeat)

-- `_should_write`, with `_last_write`
unfoldable pub should_write : ℕ → Text → ℕ → Bool → Dict ℕ → Bool × Dict ℕ
should_write heartbeat serial now force last =
    if not force && is_recent heartbeat now (Dict.get last serial)
    then (false, last)
    else (true, Dict.put last serial now)

-- `_last_write`, `_warned_unknown` and the writes that wait for the thread.
pub record Liveness : Type 0 where
  pub last_write : Dict ℕ
  pub warned : List Text
  pub submitted : List (Text × Option Text)

-- `mark_seen`; `active` says that the bridge is enabled and configured
unfoldable pub mark_seen : Bool → ℕ → Option Text → Option Text → Bool → ℕ → Liveness → Liveness
mark_seen active heartbeat none ip force now s = s
mark_seen active heartbeat (some serial) ip force now s =
    let (write, last) = should_write heartbeat serial now force s.last_write in
    if is_empty serial || not active
    then s
    else if write
    then record s { last_write = last; submitted = s.submitted ++ (serial, ip) ∷ [] }
    else s

-- How `_db.heartbeat` ends: whether a reader was updated, `LmsUnavailableError`, or any other
-- exception.
pub data Heartbeat : Type 0 where
  updated : Bool → Heartbeat
  lms_unavailable other_failure : Heartbeat

-- `_write`, when the thread comes to it
unfoldable pub write : Text → Heartbeat → Liveness → Liveness
write serial lms_unavailable s = record s { last_write = Dict.remove s.last_write serial }
write serial other_failure s = s
write serial (updated true) s = s
write serial (updated false) s =
    if any (λ t. same t serial) s.warned then s else record s { warned = serial ∷ s.warned }
