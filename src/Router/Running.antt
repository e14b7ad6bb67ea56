-- ===== src/Router/Running.antt =====
-- `/run` on the simulated readers, from the body to the answer.
use pumo_bio_metric.Prelude.{◌≡◌, refl, true, not, [], if◌then◌else◌, some, ok, all, map, filter_by}
use pumo_bio_metric.Text.{Text, strip, is_empty}
use pumo_bio_metric.Dict.{Dict}
use pumo_bio_metric.Device.{DeviceInfo, resolve_device}
use pumo_bio_metric.Migration.{MigrationResult, is_ok, run_migration_simulated}
use pumo_bio_metric.Migration.Each.{
  AreMigrated, one_of, run_migration-AreMigrated, run_migration-user_id,
}
use pumo_bio_metric.Router.Json.{Json, Members, object}
use pumo_bio_metric.Router.Body.{read_body, answered, handle}
use pumo_bio_metric.Router.Engine.{Engine, MigrationCall}
use pumo_bio_metric.Router.Calls.{read_run}
use pumo_bio_metric.Router.Replies.{summary}
use pumo_bio_metric.Router.Routes.{World, Handled, run, serve, call_run, templates}
use pumo_bio_metric.Router.Both.{both}
use pumo_bio_metric.Router.Reading.{IsBetween, read_run-IsBetween}

module _ (registry : Dict DeviceInfo) (names : Dict Text) (hardware : Engine) where
  pub record IsRun (c : MigrationCall) (w : World (both registry names hardware))
      (h : Handled (both registry names hardware)) : Type 0 where
    pub between : IsBetween c
    pub each_once :
        map
          (λ (r : MigrationResult). r.user_id)
          (run_migration_simulated registry c.source_id c.target_id c.mode [] c.user_ids
            w.readers.0).0
        ≡ map strip (filter_by (λ id. not (is_empty (strip id))) c.user_ids)
    pub one_by_one :
        let (rs, s) =
          run_migration_simulated registry c.source_id c.target_id c.mode [] c.user_ids
            w.readers.0 in
        AreMigrated
          (one_of registry
            (resolve_device registry 4370 c.source_id).sn
            (resolve_device registry 4370 c.target_id).sn
            c.mode
            [])
          (map strip (filter_by (λ id. not (is_empty (strip id))) c.user_ids))
          w.readers.0
          rs
          s
    pub reply :
        let rs =
          (run_migration_simulated registry c.source_id c.target_id c.mode [] c.user_ids
            w.readers.0).0 in
        h.0
        ≡ answered (if all is_ok rs then 200 else 207) (summary (all is_ok rs) (templates rs) rs)
    pub readers : h.1.readers ≡ (
      (run_migration_simulated registry c.source_id c.target_id c.mode [] c.user_ids w.readers.0).1,
      w.readers.1,
    )
    pub table_kept : h.1.users ≡ w.users

  -- A request to `/run` whose body is accepted, with `simulate`: both readers are named, and not by one name
  -- with one port; the user ids that are not blank are migrated without surrounding blanks, one after the
  -- other, each from the state that the one before left, and the results are theirs, in order; the answer
  -- lists the results, adds up their templates, and has the status 200 if all of them succeeded and 207
  -- otherwise; the simulated readers are as the last migration leaves them, and the hardware and the table of
  -- users as they were.
  pub run-IsRun :
      (repr : Json → Text) (ms : Members) (c : MigrationCall)
      (w : World (both registry names hardware))
      → read_run repr ms ≡ ok c
      → c.simulate ≡ true
      → IsRun c w (serve (both registry names hardware) repr (run (some (object ms))) w)
  unfolding serve handle read_body call_run
  run-IsRun repr ms c w r h =
      let between = read_run-IsBetween repr ms c r in
      let no_pin = between.3 in
      rw r record {
        between = between;
        each_once = run_migration-user_id registry _ _ _ [] c.user_ids w.readers.0;
        one_by_one = run_migration-AreMigrated registry _ _ _ [] c.user_ids w.readers.0;
        reply = rw (h, no_pin) refl;
        readers = rw (h, no_pin) refl;
        table_kept = refl;
      }
