-- ===== src/Sync/Liveness/Throttle.antt =====
-- How often a reader's contact is written.
use pumo_bio_metric.Prelude.{
  ℕ, ◌+◌, ◌≤◌, ◌≡◌, refl, Bool, true, false, ◌&&◌, List, [], ◌∷◌, ◌++◌, if◌then◌else◌, Option, none,
  some,
}
use pumo_bio_metric.Text.{Text, same, same_refl, is_empty}
use pumo_bio_metric.Dict
use pumo_bio_metric.Dict.{Dict, get-remove}
use pumo_bio_metric.Sync.Liveness.{should_write, Liveness, mark_seen, lms_unavailable, write}

-- The times of the contacts of one reader that are written, of a sequence of contacts of all
-- readers, none of them forced.
abbrev pub written : ℕ → Text → Dict ℕ → List (Text × ℕ) → List ℕ
written heartbeat serial last [] = []
written heartbeat serial last ((t, now) ∷ contacts) =
    let (write, last') = should_write heartbeat t now false last in
    let rest = written heartbeat serial last' contacts in
    if write && same t serial then now ∷ rest else rest

-- Each time is at least a heartbeat after the one before it.
abbrev pub IsSpaced : ℕ → Option ℕ → List ℕ → Type 0
IsSpaced heartbeat previous [] = Unit
IsSpaced heartbeat none (t ∷ ts) = IsSpaced heartbeat (some t) ts
IsSpaced heartbeat (some p) (t ∷ ts) = (p + heartbeat ≤ t) × IsSpaced heartbeat (some t) ts

-- A contact whose write found the database unavailable does not count: the next contact of that
-- reader is submitted, however soon it comes.
pub mark_seen_after_failure :
    (heartbeat now : ℕ) (serial : Text) (ip : Option Text) (force : Bool) (s : Liveness)
    → is_empty serial ≡ false
    → (mark_seen true heartbeat
        (some serial)
        ip
        force
        now
        (write serial lms_unavailable s)).submitted
      ≡ s.submitted ++ (serial, ip) ∷ []
unfolding mark_seen write should_write
mark_seen_after_failure heartbeat now serial ip true s h = rw h refl
mark_seen_after_failure heartbeat now serial ip false s h =
    rw (h, get-remove s.last_write serial serial, same_refl serial) refl
