-- ===== src/Migration/Between.antt =====
-- A migration between two different simulated readers: what every PIN of every reader finds after it.
use pumo_bio_metric.Prelude.{
  ◌≡◌, refl, ◌⊎◌, true, false, ◌&&◌, arith, if◌then◌else◌, Option, none, some,
}
use pumo_bio_metric.Text.{Text, same}
use pumo_bio_metric.Device.{SimRef, sim_source, sim_target}
use pumo_bio_metric.Sim.{SimUser, SimState, users_of}
use pumo_bio_metric.Sim.State.{same_ref}
use pumo_bio_metric.Sim.Users.{user_at}
use pumo_bio_metric.Sim.Delete.{find?-remaining_full}
use pumo_bio_metric.Migration.{
  MigrateRequest, MigrationResult, place, write_profile, transfer_user, is_move, is_ok, wanted_pin,
  migrate_found, migrate_between,
}
use pumo_bio_metric.Migration.Simulated.{Carries, Written, place-Written}

-- The state after a transfer of `u` to `pin` on `tgt`, where `v` is the profile there.
abbrev after_transfer :
    MigrateRequest → SimRef → SimRef → Text → SimUser → SimRef → Text → SimState → Option SimUser
after_transfer r src tgt pin v a q s =
    if same_ref tgt a && same pin q
    then some v
    else if is_move r.mode && (same_ref src a && same r.user_id q)
    then none
    else user_at a q s

-- The PIN under which the target reader gets the user.
abbrev pub target_pin : MigrateRequest → SimRef → SimUser → SimState → Text
target_pin r tgt u s = (place (wanted_pin r.target_user_id r.user_id) u (users_of tgt s)).0

module _ (r : MigrateRequest) (u : SimUser) (s : SimState) where
  abbrev WrittenOn : SimRef → Type 0
  WrittenOn tgt =
      Written u (users_of tgt s)
        (write_profile (place (wanted_pin r.target_user_id r.user_id) u (users_of tgt s)) u
          (users_of tgt s))
        (target_pin r tgt u s)

  transfer_user-user_at :
      (src tgt a : SimRef) (q : Text) (w : WrittenOn tgt)
      → same_ref src tgt ≡ false
      → user_at a q (transfer_user r src tgt u s)
        ≡ after_transfer r src tgt (target_pin r tgt u s) w.profile a q s
  transfer_user-user_at sim_source sim_source a q w ne = absurd (ground (arith, ne))
  transfer_user-user_at sim_target sim_target a q w ne = absurd (ground (arith, ne))
  transfer_user-user_at sim_source sim_target sim_source q w ne =
      ground (arith, find?-remaining_full r.user_id q s.source_users)
  transfer_user-user_at sim_source sim_target sim_target q w ne = ground (arith, w.found q)
  transfer_user-user_at sim_target sim_source sim_source q w ne = ground (arith, w.found q)
  transfer_user-user_at sim_target sim_source sim_target q w ne =
      ground (arith, find?-remaining_full r.user_id q s.target_users)

-- What a successful migration from `src` to `tgt` does to the state `s`.
abbrev pub Migrated :
    MigrateRequest → SimRef → SimRef → SimState → MigrationResult × SimState → Type 0
Migrated r src tgt s (result, s') =
    (u : SimUser) × (v : SimUser) × (user_at src r.user_id s ≡ some u)
    × Carries u v
    × ((user_at tgt result.target_user_id s ≡ none)
        ⊎ ((e : SimUser) × (user_at tgt result.target_user_id s ≡ some e) × (e.name ≡ u.name)))
    × ((a : SimRef) (q : Text)
        → user_at a q s' ≡ after_transfer r src tgt result.target_user_id v a q s)

migrate_found-Migrated :
    (r : MigrateRequest) (src_sn tgt_sn : Text) (src tgt : SimRef) (s : SimState)
    (o : Option SimUser)
    → user_at src r.user_id s ≡ o
    → same_ref src tgt ≡ false
    → is_ok (migrate_found r src_sn tgt_sn src tgt s o).0 ≡ true
    → Migrated r src tgt s (migrate_found r src_sn tgt_sn src tgt s o)
unfolding migrate_found
migrate_found-Migrated r src_sn tgt_sn src tgt s none h ne ok = absurd (ground (arith, ok))
migrate_found-Migrated r src_sn tgt_sn src tgt s (some u) h ne ok =
    let w : WrittenOn r u s tgt = place-Written _ u (users_of tgt s) in
    (u, w.profile, h, w.carries, w.safe, λ a q. transfer_user-user_at r u s src tgt a q w ne)

-- A migration between two different simulated readers that succeeds: the source reader had a user
-- of that PIN; the target reader has, under the PIN that the result names, a profile with the same
-- name, rights, password, card and fingerprints, and that PIN was free there or belonged to a user
-- of the same name; a move takes the user off the source reader and a copy does not; nobody else
-- on any reader is changed.
pub migrate_between-Migrated :
    (r : MigrateRequest) (src_sn tgt_sn : Text) (src tgt : SimRef) (s : SimState)
    → same_ref src tgt ≡ false
    → is_ok (migrate_between r src_sn tgt_sn src tgt s).0 ≡ true
    → Migrated r src tgt s (migrate_between r src_sn tgt_sn src tgt s)
unfolding migrate_between
migrate_between-Migrated r src_sn tgt_sn src tgt s =
    migrate_found-Migrated r src_sn tgt_sn src tgt s _ refl
