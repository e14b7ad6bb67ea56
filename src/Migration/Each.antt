-- ===== src/Migration/Each.antt =====
-- `run_migration`: whom it migrates, in which order, and the invariant.
use pumo_bio_metric.Prelude.{
  ◌≡◌, refl, not, List, [], ◌∷◌, map, arith, length, count_by, filter_by, Bool-cases, inl, inr,
}
use pumo_bio_metric.Text.{Text, strip, is_empty}
use pumo_bio_metric.Dict
use pumo_bio_metric.Dict.{Dict}
use pumo_bio_metric.Device.{DeviceInfo, resolve_device}
use pumo_bio_metric.Sim.{SimState}
use pumo_bio_metric.Sim.State.{IsWellFormed}
use pumo_bio_metric.Migration.{
  MigrationResult, migrate_single_user_simulated, migrate_each, run_migration_simulated,
}
use pumo_bio_metric.Migration.Run.{migrate_single_user-IsWellFormed, migrate_single_user-user_id}

-- The user ids that a run does not skip, as it passes them on.
abbrev pub given_ids : List Text → List Text
given_ids ids = map strip (filter_by (λ id. not (is_empty (strip id))) ids)

-- Users migrated one after the other: each from the state that the one before left.
pub data AreMigrated (one : Text → SimState → MigrationResult × SimState)
    : List Text → SimState → List MigrationResult → SimState → Type 0 where
  nobody : {s : SimState} → AreMigrated one [] s [] s
  one_more :
      {id : Text} {ids : List Text} {s t : SimState} {rs : List MigrationResult}
      → AreMigrated one ids (one id s).1 rs t
      → AreMigrated one (id ∷ ids) s ((one id s).0 ∷ rs) t

-- One migration of a run.
abbrev pub one_of :
    Dict DeviceInfo → Text → Text → Text → Dict Text → Text → SimState → MigrationResult × SimState
one_of registry src_sn tgt_sn mode targets id = migrate_single_user_simulated registry (record {
  source_id = src_sn;
  target_id = tgt_sn;
  user_id = id;
  mode = mode;
  target_user_id = Dict.get targets id;
})

module _ (registry : Dict DeviceInfo) (src_sn tgt_sn mode : Text) (targets : Dict Text) where
  migrate_each-AreMigrated :
      (ids : List Text) (s : SimState)
      → AreMigrated
          (one_of registry src_sn tgt_sn mode targets)
          (given_ids ids)
          s
          (migrate_each registry src_sn tgt_sn mode targets ids s).0
          (migrate_each registry src_sn tgt_sn mode targets ids s).1
  unfolding migrate_each filter_by
  migrate_each-AreMigrated [] s = nobody
  migrate_each-AreMigrated (id ∷ ids) s = elim (Bool-cases (is_empty (strip id))) [
    | inl blank ↦ rw blank (migrate_each-AreMigrated ids s)
    | inr given ↦ rw given (one_more (migrate_each-AreMigrated ids _))
  ]

  migrate_each-user_id :
      (ids : List Text) (s : SimState)
      → map
          (λ (r : MigrationResult). r.user_id)
          (migrate_each registry src_sn tgt_sn mode targets ids s).0
        ≡ given_ids ids
  unfolding migrate_each filter_by
  migrate_each-user_id [] s = refl
  migrate_each-user_id (id ∷ ids) s = elim (Bool-cases (is_empty (strip id))) [
    | inl blank ↦ rw blank (migrate_each-user_id ids s)
    | inr given ↦ rw (given, migrate_single_user-user_id, migrate_each-user_id ids) refl
  ]

  migrate_each-IsWellFormed :
      (ids : List Text) (s : SimState)
      → IsWellFormed s
      → IsWellFormed (migrate_each registry src_sn tgt_sn mode targets ids s).1
  unfolding migrate_each
  migrate_each-IsWellFormed [] s w = w
  migrate_each-IsWellFormed (id ∷ ids) s w = elim (Bool-cases (is_empty (strip id))) [
    | inl blank ↦ rw blank (migrate_each-IsWellFormed ids s w)
    | inr given ↦
        rw given (migrate_each-IsWellFormed ids _ (migrate_single_user-IsWellFormed registry _ s w))
  ]

  migrate_each-length :
      (ids : List Text) (s : SimState)
      → length (migrate_each registry src_sn tgt_sn mode targets ids s).0
        ≡ count_by (λ id. not (is_empty (strip id))) ids
  unfolding migrate_each count_by
  migrate_each-length [] s = refl
  migrate_each-length (id ∷ ids) s = ground (
    arith,
    migrate_each-length ids s,
    migrate_each-length ids
        (migrate_single_user_simulated registry
          (record {
            source_id = src_sn;
            target_id = tgt_sn;
            user_id = strip id;
            mode = mode;
            target_user_id = Dict.get targets (strip id);
          })
          s).1,
  )

-- A run migrates the user ids that are not blank, one after the other.
pub run_migration-AreMigrated :
    (registry : Dict DeviceInfo) (source_ip target_ip mode : Text) (targets : Dict Text)
    (ids : List Text) (s : SimState)
    → AreMigrated
        (one_of registry
          (resolve_device registry 4370 source_ip).sn
          (resolve_device registry 4370 target_ip).sn
          mode
          targets)
        (given_ids ids)
        s
        (run_migration_simulated registry source_ip target_ip mode targets ids s).0
        (run_migration_simulated registry source_ip target_ip mode targets ids s).1
unfolding run_migration_simulated
run_migration-AreMigrated registry source_ip target_ip mode targets ids s =
    migrate_each-AreMigrated registry _ _ mode targets ids s

-- The results of a run are those of the user ids that are not blank, in their order.
pub run_migration-user_id :
    (registry : Dict DeviceInfo) (source_ip target_ip mode : Text) (targets : Dict Text)
    (ids : List Text) (s : SimState)
    → map
        (λ (r : MigrationResult). r.user_id)
        (run_migration_simulated registry source_ip target_ip mode targets ids s).0
      ≡ given_ids ids
unfolding run_migration_simulated
run_migration-user_id registry source_ip target_ip mode targets ids s =
    migrate_each-user_id registry _ _ mode targets ids s

-- A run of migrations keeps PINs and uids distinct on every reader, and has one result for each
-- PIN that is not blank.
pub run_migration-IsWellFormed :
    (registry : Dict DeviceInfo) (source_ip target_ip mode : Text) (targets : Dict Text)
    (ids : List Text) (s : SimState)
    → IsWellFormed s
    → let (rs, s') = run_migration_simulated registry source_ip target_ip mode targets ids s in
      IsWellFormed s' × (length rs ≡ count_by (λ id. not (is_empty (strip id))) ids)
unfolding run_migration_simulated
run_migration-IsWellFormed registry source_ip target_ip mode targets ids s w = (
  migrate_each-IsWellFormed registry _ _ mode targets ids s w,
  migrate_each-length registry _ _ mode targets ids s,
)
