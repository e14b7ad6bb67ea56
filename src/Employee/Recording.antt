-- ===== src/Employee/Recording.antt =====
-- Readers that note the deletions they are asked for.
use mathlib.Core.List.{append-nil, append_assoc}
use pumo_bio_metric.Prelude.{Bool, List, [], ◌∷◌, ◌++◌, map, ◌≡◌, refl, sym, ◌∙◌}
use pumo_bio_metric.Text.{Text}
use pumo_bio_metric.Dict.{Dict}
use pumo_bio_metric.Device.{DeviceInfo}
use pumo_bio_metric.Employee.{Readers}
use pumo_bio_metric.Employee.Offboard.{delete_on_each}

-- A reader and a PIN, and whether only the fingerprints are to go.
abbrev pub Asked : Type 0
Asked = (Text × Text) × Bool

-- The same readers, with the calls of `delete_device_user` in the order in which they are made.
abbrev pub recording : Readers → Readers
recording R = record {
  State = R.State × List Asked;
  resolve_pin = λ sn pin name (s, log). let (c, s') = R.resolve_pin sn pin name s in (c, (s', log));
  migrate = λ r source_port target_port (s, log).
      let (m, s') = R.migrate r source_port target_port s in (m, (s', log));
  delete_user = λ sn pin port only (s, log).
      let (d, s') = R.delete_user sn pin port only s in (d, (s', log ++ ((sn, pin), only) ∷ []));
}

module _ (R : Readers) (registry : Dict DeviceInfo) (only : Bool) where
  -- The readers are asked one after the other, each once for each target.
  pub noted-delete_on_each :
      (targets : List (Text × Text)) (s : R.State) (log : List Asked)
      → (delete_on_each (recording R) registry only targets (s, log)).1.1
        ≡ log ++ map (λ t. (t, only)) targets
  unfolding delete_on_each
  noted-delete_on_each [] s log = sym (append-nil log)
  noted-delete_on_each ((sn, pin) ∷ targets) s log =
      noted-delete_on_each targets _ (log ++ ((sn, pin), only) ∷ []) ∙ append_assoc log _ _

  -- The notes change nothing else.
  recorded-delete_on_each :
      (targets : List (Text × Text)) (s : R.State) (log : List Asked)
      → ((delete_on_each (recording R) registry only targets (s, log)).0
          ≡ (delete_on_each R registry only targets s).0)
        × ((delete_on_each (recording R) registry only targets (s, log)).1.0
            ≡ (delete_on_each R registry only targets s).1)
  unfolding delete_on_each
  recorded-delete_on_each [] s log = (refl, refl)
  recorded-delete_on_each ((sn, pin) ∷ targets) s log =
      let (r, e) = recorded-delete_on_each targets _ (log ++ ((sn, pin), only) ∷ []) in
      (rw r refl, e)
