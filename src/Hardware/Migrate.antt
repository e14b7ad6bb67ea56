-- ===== src/Hardware/Migrate.antt =====
-- `migrate_single_user_real`
use pumo_bio_metric.Prelude.{
  ℕ, ◌==◌, Bool, not, ◌&&◌, List, [], ◌∷◌, ◌++◌, map, filter_by, find?, any, length, if◌then◌else◌,
  Option, none, some,
}
use pumo_bio_metric.Text.{Text, codes, same, strip, lower, is_empty}
use pumo_bio_metric.Text.Numbers.{ℤ, pos}
use pumo_bio_metric.Dict.{Dict}
use pumo_bio_metric.Pin.{free_number, mapped_pin}
use pumo_bio_metric.Device.{DeviceInfo, Resolved, resolve_device}
use pumo_bio_metric.Sim.{Finger}
use pumo_bio_metric.Migration.{
  MigrateRequest, MigrationResult, MigrationError, user_not_found, verification_failed,
  pyzk_missing, device_failed, wanted_pin, is_move, first_given,
}
use pumo_bio_metric.Hardware.{
  HwUser, Template, source, target, disable, refresh, read_version, set_user, save_templates,
  delete_user, Driver, Hw, M, ◌>>=◌, ◌>>◌, pure, attempt, connect, run, get_users, quietly, close,
}

abbrev pub user_has : Text → HwUser → Bool
user_has pin u = same u.user_id pin

-- `target_src_user.name or f"User {user_id}"`
abbrev pub name_of : Text → HwUser → Text
name_of pin u = if is_empty u.name then codes "User " ++ pin else u.name

-- `existing and existing.name and existing.name.strip().lower() != user_name.strip().lower()`
unfoldable pub is_other : Text → HwUser → Bool
is_other name e = not (is_empty e.name) && not (same (lower (strip e.name)) (lower (strip name)))

abbrev pub uids : List HwUser → List ℤ
uids = map (λ (u : HwUser). pos u.uid)

abbrev pub pins : List HwUser → List Text
pins = map (λ (u : HwUser). u.user_id)

-- `target_uid = 1; while target_uid in used_uids: target_uid += 1`
abbrev pub free_uid : List HwUser → ℕ
free_uid users = free_number (uids users) 1

-- The PIN and the uid on the target reader: what the code does with the first user there that has
-- the wanted PIN.
unfoldable pub destination_for : Text → Text → List HwUser → Option HwUser → Text × ℕ
destination_for pin name users none = (pin, free_uid users)
destination_for pin name users (some e) =
    if is_other name e then (mapped_pin (pins users) pin, free_uid users) else (pin, e.uid)

unfoldable pub destination : Text → Text → List HwUser → Text × ℕ
unfolding destination_for
destination pin name users = destination_for pin name users (find? (user_has pin) users)

-- What is written on the target reader.
abbrev pub profile : Text → Text × ℕ → HwUser → HwUser
profile name (pin, uid) u = record u { uid = uid; user_id = pin; name = name }

abbrev pub all_fids : List ℕ
all_fids = 0 ∷ 1 ∷ 2 ∷ 3 ∷ 4 ∷ 5 ∷ 6 ∷ 7 ∷ 8 ∷ 9 ∷ []

-- `[t for t in all_templates if t.uid == target_src_user.uid]`, or none if the read raised
abbrev pub fingers_of : ℕ → Option (List Template) → List Finger
fingers_of uid none = []
fingers_of uid (some ts) = map (λ (t : Template). t.finger) (filter_by (λ t. t.uid == uid) ts)

abbrev pub with_finger : Option (Option Finger) → List Finger → List Finger
with_finger (some (some f)) fs = if is_empty f.template then fs else f ∷ fs
with_finger _ fs = fs

-- The results that do not come from the end of the run.
abbrev pub stopped : MigrateRequest → Text → Text → Text → Text → MigrationError → MigrationResult
stopped r src tgt name pin e = record {
  mode = r.mode;
  user_id = r.user_id;
  user_name = name;
  source_ip = src;
  target_ip = tgt;
  target_user_id = pin;
  fingers_transferred = 0;
  error = some e;
}

abbrev pub completed : MigrateRequest → Text → Text → Text → Text → ℕ → MigrationResult
completed r src tgt name pin n = record {
  mode = r.mode;
  user_id = r.user_id;
  user_name = name;
  source_ip = src;
  target_ip = tgt;
  target_user_id = pin;
  fingers_transferred = n;
  error = none;
}

module _ (D : Driver) (r : MigrateRequest) (src tgt : Resolved) where
  -- `get_user_template` for each of the fingers
  unfoldable pub scan_fingers : HwUser → List ℕ → M D (List Finger)
  scan_fingers u [] = pure []
  scan_fingers u (fid ∷ fids) = do
    found ← attempt (quietly D (D.get_user_template source u.uid fid r.user_id))
    rest ← scan_fingers u fids
    pure (with_finger found rest)

  abbrev pub or_scan : HwUser → List Finger → M D (List Finger)
  or_scan u [] = scan_fingers u all_fids
  or_scan u (f ∷ fs) = pure (f ∷ fs)

  unfoldable pub read_fingers : HwUser → M D (List Finger)
  read_fingers u = do
    templates ← attempt (quietly D (D.get_templates source))
    or_scan u (fingers_of u.uid templates)

  abbrev pub save_fingers : HwUser → List Finger → M D (Unit {0})
  save_fingers v [] = pure tt
  save_fingers v (f ∷ fs) = run D target (save_templates v (f ∷ fs))

  -- Step 6: the user leaves the source reader.
  abbrev pub leave_source : HwUser → M D (Unit {0})
  leave_source u =
      if is_move r.mode
      then run D source (delete_user u.uid r.user_id) >> run D source refresh
      else pure tt

  -- Step 5 and what follows, on the users that the target reader lists.
  unfoldable pub verify : HwUser → List Finger → Text → List HwUser → M D MigrationResult
  verify u fs pin seen =
      if any (user_has pin) seen
      then (do
        leave_source u
        pure (completed r src.ip tgt.ip (name_of r.user_id u) pin (length fs)))
      else pure (stopped r src.ip tgt.ip (name_of r.user_id u) pin verification_failed)

  -- Steps 3 and 4.
  unfoldable pub write : HwUser → List Finger → Text × ℕ → M D MigrationResult
  write u fs place = do
    run D target (set_user (profile (name_of r.user_id u) place u))
    save_fingers (profile (name_of r.user_id u) place u) fs
    run D target refresh
    seen ← get_users D target
    verify u fs place.0 seen

  -- Step 2. What `get_fp_version` answers only goes to the log lines.
  unfoldable pub open_target : HwUser → M D MigrationResult
  open_target u = do
    fs ← read_fingers u
    connect D target tgt.ip tgt.port
    run D target disable
    attempt (run D source read_version >> run D target read_version)
    users ← get_users D target
    write u fs (destination (wanted_pin r.target_user_id r.user_id) (name_of r.user_id u) users)

  -- The `except` clause, where `name` is what `user_name` holds by then.
  abbrev pub caught : Text → Option MigrationResult → MigrationResult
  caught name none = stopped r src.ip tgt.ip name r.user_id device_failed
  caught name (some result) = result

  abbrev pub migrate_user : Option HwUser → M D MigrationResult
  migrate_user none = pure (stopped r src.ip tgt.ip (codes "N/A") r.user_id user_not_found)
  migrate_user (some u) = do
    result ← attempt (open_target u)
    pure (caught (name_of r.user_id u) result)

  -- The body of the `try` statement.
  unfoldable pub migrate_body : M D MigrationResult
  migrate_body = do
    connect D source src.ip src.port
    run D source disable
    users ← get_users D source
    migrate_user (find? (user_has r.user_id) users)

  -- The `finally` clause.
  unfoldable pub close_both : Hw D → Hw D
  unfolding ◌>>=◌ close
  close_both h = ((close D source >> close D target) h).1

  -- The `try` statement, from a fresh log.
  unfoldable pub migrate_run : Hw D → MigrationResult × Hw D
  migrate_run h =
      let (o, h') = migrate_body (record h { log = [] }) in
      (caught (codes "User " ++ r.user_id) o, close_both h')

-- `migrate_single_user_real`; `has_pyzk` is `HAS_PYZK`
unfoldable pub migrate_single_user_real :
    (D : Driver) → Bool → Dict DeviceInfo → ℕ → ℕ → MigrateRequest → Hw D → MigrationResult × Hw D
migrate_single_user_real D has_pyzk registry source_port target_port r h =
    let src =
      resolve_device registry source_port
        (first_given (some r.source_id ∷ []) (codes "NFZ8254900401")) in
    let tgt =
      resolve_device registry target_port
        (first_given (some r.target_id ∷ []) (codes "UFZ9876543210")) in
    if has_pyzk
    then migrate_run D r src tgt h
    else (stopped r src.sn tgt.sn (codes "N/A") r.user_id pyzk_missing, record h { log = [] })
