-- ===== src/Hardware/Verified.antt =====
-- When `migrate_single_user_real` takes a user off the source reader.
use pumo_bio_metric.Prelude.{
  ℕ, ◌≡◌, refl, Bool, true, false, ◌&&◌, ◌||◌, List, [], ◌∷◌, any, Option, none, some, arith,
  Bool-cases, inl, inr,
}
use pumo_bio_metric.Text.{Text, same, same_refl}
use pumo_bio_metric.Dict.{Dict}
use pumo_bio_metric.Device.{DeviceInfo, Resolved}
use pumo_bio_metric.Sim.{Finger}
use pumo_bio_metric.Migration.{MigrateRequest, is_move}
use pumo_bio_metric.Hardware.{
  is_open, HwUser, source, target, set_user, delete_user, Driver, Event, ran, listed, Hw, ◌>>=◌,
  pure, continue, run, noted, get_users, close,
}
use pumo_bio_metric.Hardware.Keeps.{
  IsKept, Leads, Keeps, >>=-Leads, >>=-Keeps, pure-Keeps, attempt-Keeps, quietly-Keeps,
  connect-Keeps, run-Keeps, get_users-Keeps, close-Keeps,
}
use pumo_bio_metric.Hardware.Migrate.{
  user_has, all_fids, fingers_of, scan_fingers, or_scan, read_fingers, save_fingers, leave_source,
  verify, write, open_target, migrate_user, migrate_body, close_both, migrate_run,
  migrate_single_user_real,
}

-- Whether a user with this PIN was written on the target reader.
abbrev is_write : Text → Event → Bool
is_write pin (ran target (set_user v)) = same v.user_id pin
is_write pin _ = false

abbrev pub was_written : Text → List Event → Bool
was_written pin log = any (is_write pin) log

-- Whether the target reader listed the PIN after a user with that PIN was written there.
unfoldable pub was_verified : Text → List Event → Bool
was_verified pin [] = false
was_verified pin (listed target users ∷ log) =
    any (user_has pin) users && was_written pin log || was_verified pin log
was_verified pin (_ ∷ log) = was_verified pin log

-- At each point of the run where a user was taken off the source reader, the mode is a move, and the
-- target reader had listed a PIN that had been written there before.
pub IsSafe : Text → List Event → Type 0
IsSafe mode [] = Unit
IsSafe mode (ran source (delete_user _ _) ∷ log) =
    (is_move mode ≡ true) × (pin : Text) × (was_verified pin log ≡ true) × IsSafe mode log
IsSafe mode (_ ∷ log) = IsSafe mode log

IsSafe-IsKept : (mode : Text) → IsKept (IsSafe mode)
unfolding IsSafe
IsSafe-IsKept mode (ran source (delete_user uid pin)) log q p = ground (arith, q)
IsSafe-IsKept mode (ran target (delete_user uid pin)) log q p = p
IsSafe-IsKept mode e log q p = p

-- A safe log in which the PIN is written.
abbrev Written : Text → Text → List Event → Type 0
Written mode pin log = IsSafe mode log × (was_written pin log ≡ true)

Written-IsKept : (mode pin : Text) → IsKept (Written mode pin)
unfolding any
Written-IsKept mode pin e log q p = (IsSafe-IsKept mode e log q p.0, ground (arith, p.1))

module _ (D : Driver) (r : MigrateRequest) (src tgt : Resolved) where
  kept : IsKept (IsSafe r.mode)
  kept = IsSafe-IsKept r.mode

  leave_source-IsSafe :
      (u : HwUser) (pin : Text)
      → Leads
          (λ log. IsSafe r.mode log × (was_verified pin log ≡ true))
          (IsSafe r.mode)
          (leave_source D r src tgt u)
  unfolding IsSafe run pure
  leave_source-IsSafe u pin = elim (Bool-cases (is_move r.mode)) [
    | inl m ↦ rw m (
        >>=-Leads {R = IsSafe r.mode} (record { lead = λ h p. (m, pin, p.1, p.0) }) (λ _ p. p)
          (λ _. run-Keeps _ _ kept refl))
    | inr n ↦ rw n (record { lead = λ h p. p.0 })
  ]

  verify-IsSafe :
      (u : HwUser) (fs : List Finger) (pin : Text) (seen : List HwUser)
      → Leads
          (λ log.
            IsSafe r.mode log × (any (user_has pin) seen ≡ true → was_verified pin log ≡ true))
          (IsSafe r.mode)
          (verify D r src tgt u fs pin seen)
  unfolding verify pure
  verify-IsSafe u fs pin seen = elim (Bool-cases (any (user_has pin) seen)) [
    | inl e ↦ rw e (
        >>=-Leads {R = IsSafe r.mode}
          (record { lead = λ h p. (leave_source-IsSafe u pin).lead h (p.0, p.1 refl) }) (λ _ p. p)
          (λ _. record { lead = λ h p. p }))
    | inr n ↦ rw n (record { lead = λ h p. p.0 })
  ]

  check_lem :
      (u : HwUser) (fs : List Finger) (pin : Text) (o : Option (List HwUser)) (h h' : Hw D)
      → h'.log ≡ noted target o h.log
      → Written r.mode pin h.log
      → IsSafe r.mode (continue (o, h') (verify D r src tgt u fs pin)).1.log
  unfolding was_verified IsSafe
  check_lem u fs pin none h h' e p = rw e p.0
  check_lem u fs pin (some seen) h h' e p =
      (verify-IsSafe u fs pin seen).lead h' (rw e p.0, λ t. rw (e, t, p.1) refl)

  -- Step 5: the target reader lists its users, and what follows.
  check-IsSafe :
      (u : HwUser) (fs : List Finger) (pin : Text)
      → Leads
          (Written r.mode pin)
          (IsSafe r.mode)
          (get_users D target >>= verify D r src tgt u fs pin)
  unfolding ◌>>=◌ get_users
  check-IsSafe u fs pin = record {
    lead = λ h p. check_lem u fs pin (D.get_users target h.world).0 h _ refl p;
  }

  save_fingers-Written :
      (pin : Text) (v : HwUser) (fs : List Finger)
      → Keeps (Written r.mode pin) (save_fingers D r src tgt v fs)
  save_fingers-Written pin v [] = pure-Keeps _
  save_fingers-Written pin v (f ∷ fs) = run-Keeps _ _ (Written-IsKept r.mode pin) refl

  set_user-Written :
      (v : HwUser) → Leads (IsSafe r.mode) (Written r.mode v.user_id) (run D target (set_user v))
  unfolding run any IsSafe
  set_user-Written v = record { lead = λ h p. (p, rw (same_refl v.user_id) refl) }

  write-IsSafe :
      (u : HwUser) (fs : List Finger) (place : Text × ℕ)
      → Keeps (IsSafe r.mode) (write D r src tgt u fs place)
  unfolding write
  write-IsSafe u fs place =
      let written = Written-IsKept r.mode place.0 in
      >>=-Leads (set_user-Written _) (λ _ p. p.0)
        (λ _.
          >>=-Leads (save_fingers-Written place.0 _ fs) (λ _ p. p.0)
            (λ _.
              >>=-Leads (run-Keeps _ _ written refl) (λ _ p. p.0) (λ _. check-IsSafe u fs place.0)))

  scan_fingers-Keeps :
      {P : List Event → Type 0} (u : HwUser) (fids : List ℕ)
      → Keeps P (scan_fingers D r src tgt u fids)
  unfolding scan_fingers
  scan_fingers-Keeps u [] = pure-Keeps _
  scan_fingers-Keeps u (fid ∷ fids) =
      >>=-Keeps (attempt-Keeps (quietly-Keeps _))
        (λ _. >>=-Keeps (scan_fingers-Keeps u fids) (λ _. (pure-Keeps _)))

  or_scan-Keeps :
      {P : List Event → Type 0} (u : HwUser) (fs : List Finger) → Keeps P (or_scan D r src tgt u fs)
  or_scan-Keeps u [] = scan_fingers-Keeps u all_fids
  or_scan-Keeps u (f ∷ fs) = pure-Keeps _

  read_fingers-Keeps : {P : List Event → Type 0} (u : HwUser) → Keeps P (read_fingers D r src tgt u)
  unfolding read_fingers
  read_fingers-Keeps u =
      >>=-Keeps (attempt-Keeps (quietly-Keeps _)) (λ ts. or_scan-Keeps u (fingers_of u.uid ts))

  open_target-IsSafe : (u : HwUser) → Keeps (IsSafe r.mode) (open_target D r src tgt u)
  unfolding open_target
  open_target-IsSafe u = >>=-Keeps (read_fingers-Keeps u) (λ fs.
      >>=-Keeps (connect-Keeps _ _ _ kept) (λ _. >>=-Keeps (run-Keeps _ _ kept refl) (λ _.
        >>=-Keeps
          (attempt-Keeps (>>=-Keeps (run-Keeps _ _ kept refl) (λ _. run-Keeps _ _ kept refl)))
          (λ _. >>=-Keeps (get_users-Keeps _ kept) (λ users. write-IsSafe u fs _)))))

  migrate_user-IsSafe : (o : Option HwUser) → Keeps (IsSafe r.mode) (migrate_user D r src tgt o)
  migrate_user-IsSafe none = pure-Keeps _
  migrate_user-IsSafe (some u) =
      >>=-Keeps (attempt-Keeps (open_target-IsSafe u)) (λ _. (pure-Keeps _))

  migrate_body-IsSafe : Keeps (IsSafe r.mode) (migrate_body D r src tgt)
  unfolding migrate_body
  migrate_body-IsSafe = >>=-Keeps (connect-Keeps _ _ _ kept) (λ _.
      >>=-Keeps (run-Keeps _ _ kept refl)
        (λ _. >>=-Keeps (get_users-Keeps _ kept) (λ users. migrate_user-IsSafe _)))

  migrate_run-IsSafe : (h : Hw D) → IsSafe r.mode (migrate_run D r src tgt h).1.log
  unfolding migrate_run IsSafe ◌>>=◌ close close_both is_open
  migrate_run-IsSafe h =
      (>>=-Keeps (close-Keeps source kept) (λ _. close-Keeps target kept)).lead
        (migrate_body D r src tgt (record h { log = [] })).1
        (migrate_body-IsSafe.lead (record h { log = [] }) tt)

-- A migration between hardware readers never takes a user off the source reader except in a move,
-- and then only after the target reader has listed a PIN that the run had written there: whatever
-- the readers answer and whichever call raises, on every path.
pub migrate_single_user_real-IsSafe :
    (D : Driver) (has_pyzk : Bool) (registry : Dict DeviceInfo) (source_port target_port : ℕ)
    (r : MigrateRequest) (h : Hw D)
    → IsSafe r.mode (migrate_single_user_real D has_pyzk registry source_port target_port r h).1.log
unfolding migrate_single_user_real IsSafe
migrate_single_user_real-IsSafe D true registry source_port target_port r h =
    migrate_run-IsSafe D r _ _ h
migrate_single_user_real-IsSafe D false registry source_port target_port r h = tt
