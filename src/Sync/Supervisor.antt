-- ===== src/Sync/Supervisor.antt =====
-- A round of the loop of sync/supervisor.py: `_run` after its wait.
pub mod Lifecycle
use pumo_bio_metric.Prelude.{
  ℕ, ◌≡◌, ◌⊎◌, refl, Bool, true, false, List, map, ◌==◌, if◌then◌else◌, Option, none, some, Result,
  ok, err,
}
use pumo_bio_metric.Sync.Punch.{Punch, to_json}
use pumo_bio_metric.Sync.Spool.{Fault, no_fault, pending, read_lines}
use pumo_bio_metric.Sync.Ingest.{
  Lms, State, unavailable, unexpected, FlushError, save_error, save_punches, flush,
}
use pumo_bio_metric.Sync.Ingest.Kept.{are_stored, flush-kept}

module _ (L : Lms) where
  -- The flag `announced_outage` after a flush, or `none` where the exception leaves the loop and
  -- ends the thread.
  abbrev pub announced_after : Result (FlushError L) ℕ → Option Bool
  announced_after (ok n) = some false
  announced_after (err (save_error unavailable)) = some true
  announced_after (err _) = none

  -- One round of `_run`
  unfoldable pub run_round : Fault → Bool → State L → Option Bool × State L
  run_round fault announced s =
      let (outcome, s') = flush L fault s in
      if pending s.file == 0 then (some announced, s) else (announced_after outcome, s')

  -- A round over a spool with something in it keeps each held punch, in the table or in the
  -- file, whether the loop goes on or not: if the file system does not fail and no line of the
  -- spool raises a `TypeError`.
  pub run_round-kept :
      (announced : Bool) (s : State L) (waiting : List Punch)
      → read_lines s.file ≡ ok waiting
      → (pending s.file == 0) ≡ false
      → (are_stored L (run_round no_fault announced s).1.table waiting ≡ true)
        ⊎ ((run_round no_fault announced s).1.file ≡ map to_json waiting)
  unfolding run_round
  run_round-kept announced s waiting h k = rw k (flush-kept L s waiting h)

  -- An exception other than `LmsUnavailableError` while the held punches are saved ends the loop for
  -- good, with the punches back in the spool.
  pub run_round_stops :
      (announced : Bool) (s : State L) (waiting : List Punch) (t : L.Table)
      → read_lines s.file ≡ ok waiting
      → (pending s.file == 0) ≡ false
      → save_punches L s.table waiting ≡ (err unexpected, t)
      → run_round no_fault announced s ≡ (none, record { file = map to_json waiting; table = t })
  unfolding run_round flush
  run_round_stops announced s waiting t h k l = rw (k, h, l) refl
