-- ===== src/Hardware/Places/Moved.antt =====
-- Where `migrate_single_user_real` writes the user.
use pumo_bio_metric.Prelude.{
  ℕ, ◌≡◌, refl, Bool, true, false, List, [], ◌∷◌, any, find?, Option, none, some, arith, Bool-cases,
  inl, inr,
}
use pumo_bio_metric.Text.{Text}
use pumo_bio_metric.Dict.{Dict}
use pumo_bio_metric.Pin.Laws.{free_number-least, mapped_pin-free}
use pumo_bio_metric.Device.{DeviceInfo, Resolved}
use pumo_bio_metric.Migration.{MigrateRequest, MigrationResult, is_move}
use pumo_bio_metric.Sim.{Finger}
use pumo_bio_metric.Hardware.{HwUser, Driver, Hw, ◌>>=◌}
use pumo_bio_metric.Hardware.Triples.{Post, Triple, Holds, pure-Triple, >>=-Triple, attempt-Holds}
use pumo_bio_metric.Hardware.Migrate.{
  user_has, name_of, is_other, uids, pins, destination_for, destination, profile, all_fids,
  scan_fingers, or_scan, read_fingers, save_fingers, leave_source, verify, write, open_target,
  migrate_user, migrate_body, close_both, migrate_run, migrate_single_user_real,
}
use pumo_bio_metric.Hardware.Closed.{continue-close}
use pumo_bio_metric.Hardware.Places.{
  fits, is_placed, find?-pins, Placed, run-Placed, connect-Placed, get_users-Placed, quiet-Placed,
  pure-Placed, Listed, listed-Triple, set_user-Written, Written, save_templates-Placed,
  close-is_placed,
}

-- The place of a user on the target reader fits.
destination_for-fits :
    (pin name : Text) (users : List HwUser) (u : HwUser) (o : Option HwUser)
    → find? (user_has pin) users ≡ o
    → fits (profile name (destination_for pin name users o) u) (some users) ≡ true
unfolding destination_for
destination_for-fits pin name users u none h = rw (h, (free_number-least (uids users) 1).0) refl
destination_for-fits pin name users u (some e) h = elim (Bool-cases (is_other name e)) [
  | inl t ↦
      rw
        (
          t,
          find?-pins _ users (mapped_pin-free (pins users) pin),
          (free_number-least (uids users) 1).0,
        )
        refl
  | inr f ↦ rw (f, h, f) (ground arith)
]

module _ (D : Driver) (r : MigrateRequest) (src tgt : Resolved) where
  scan_fingers-Placed :
      (u : HwUser) (fids : List ℕ) → Holds Placed (scan_fingers D r src tgt u fids)
  unfolding scan_fingers
  scan_fingers-Placed u [] = pure-Placed D _
  scan_fingers-Placed u (fid ∷ fids) =
      >>=-Triple (quiet-Placed D _)
        (λ found. >>=-Triple (scan_fingers-Placed u fids) (λ rest. pure-Placed D _))

  or_scan-Placed : (u : HwUser) (fs : List Finger) → Holds Placed (or_scan D r src tgt u fs)
  or_scan-Placed u [] = scan_fingers-Placed u all_fids
  or_scan-Placed u (f ∷ fs) = pure-Placed D _

  read_fingers-Placed : (u : HwUser) → Holds Placed (read_fingers D r src tgt u)
  unfolding read_fingers
  read_fingers-Placed u = >>=-Triple (quiet-Placed D _) (λ ts. or_scan-Placed u _)

  save_fingers-Placed :
      (v : HwUser) (fs : List Finger)
      → Triple (Written D v) (save_fingers D r src tgt v fs) (λ _. Placed) Placed
  save_fingers-Placed v [] = pure-Triple _ (λ h p. p.0)
  save_fingers-Placed v (f ∷ fs) = save_templates-Placed D v (f ∷ fs)

  leave_source-Placed : (u : HwUser) → Holds Placed (leave_source D r src tgt u)
  leave_source-Placed u = elim (Bool-cases (is_move r.mode)) [
    | inl t ↦ rw t (>>=-Triple (run-Placed D _ _ refl) (λ _. run-Placed D _ _ refl))
    | inr f ↦ rw f (pure-Placed D _)
  ]

  verify-Placed :
      (u : HwUser) (fs : List Finger) (pin : Text) (seen : List HwUser)
      → Holds Placed (verify D r src tgt u fs pin seen)
  unfolding verify
  verify-Placed u fs pin seen = elim (Bool-cases (any (user_has pin) seen)) [
    | inl t ↦ rw t (>>=-Triple (leave_source-Placed u) (λ _. pure-Placed D _))
    | inr f ↦ rw f (pure-Placed D _)
  ]

  write-Placed :
      (u : HwUser) (fs : List Finger) (pin : Text) (users : List HwUser)
      → Triple
          (Listed D users)
          (write D r src tgt u fs (destination pin (name_of r.user_id u) users))
          (λ _. Placed)
          Placed
  unfolding write destination
  write-Placed u fs pin users =
      >>=-Triple (set_user-Written D users _ (destination_for-fits pin _ users u _ refl)) (λ _.
        >>=-Triple (save_fingers-Placed _ fs) (λ _.
          >>=-Triple (run-Placed D _ _ refl)
            (λ _. >>=-Triple (get_users-Placed D _) (λ seen. verify-Placed u fs _ seen))))

  open_target-Placed : (u : HwUser) → Holds Placed (open_target D r src tgt u)
  unfolding open_target
  open_target-Placed u = >>=-Triple (read_fingers-Placed u) (λ fs.
      >>=-Triple (connect-Placed D _ _ _) (λ _. >>=-Triple (run-Placed D _ _ refl) (λ _.
        >>=-Triple (attempt-Holds (>>=-Triple (run-Placed D _ _ refl) (λ _. run-Placed D _ _ refl)))
          (λ _. >>=-Triple (listed-Triple D) (λ users. write-Placed u fs _ users)))))

  migrate_user-Placed : (o : Option HwUser) → Holds Placed (migrate_user D r src tgt o)
  migrate_user-Placed none = pure-Placed D _
  migrate_user-Placed (some u) =
      >>=-Triple (attempt-Holds (open_target-Placed u)) (λ _. pure-Placed D _)

  migrate_body-Placed : Holds Placed (migrate_body D r src tgt)
  unfolding migrate_body
  migrate_body-Placed = >>=-Triple (connect-Placed D _ _ _) (λ _.
      >>=-Triple (run-Placed D _ _ refl)
        (λ _. >>=-Triple (get_users-Placed D _) (λ users. migrate_user-Placed _)))

  after_run : (o : Option MigrationResult × Hw D) → Post (λ _ h. Placed h) Placed o → Placed o.1
  after_run (some result, h) p = p
  after_run (none, h) p = p

  migrate_run-is_placed : (h : Hw D) → is_placed (migrate_run D r src tgt h).1.log ≡ true
  unfolding migrate_run close_both ◌>>=◌ is_placed
  migrate_run-is_placed h =
      rw (continue-close, close-is_placed, close-is_placed)
        (after_run _ (migrate_body-Placed.post _ refl))

pub migrate_single_user_real-is_placed :
    (D : Driver) (has_pyzk : Bool) (registry : Dict DeviceInfo) (source_port target_port : ℕ)
    (r : MigrateRequest) (h : Hw D)
    → is_placed (migrate_single_user_real D has_pyzk registry source_port target_port r h).1.log
      ≡ true
unfolding migrate_single_user_real is_placed
migrate_single_user_real-is_placed D true registry source_port target_port r h =
    migrate_run-is_placed D r _ _ h
migrate_single_user_real-is_placed D false registry source_port target_port r h = refl
