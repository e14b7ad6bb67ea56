-- ===== src/Migration/Same.antt =====
-- A move whose source and target are one simulated reader under two names.
use pumo_bio_metric.Prelude.{
  ◌≡◌, refl, true, not, ◌&&◌, List, arith, if◌then◌else◌, none, some, find?, filter_by,
  update_first,
}
use pumo_bio_metric.Text.{Text, same, same_refl}
use pumo_bio_metric.Device.{SimRef, sim_source, sim_target}
use pumo_bio_metric.Sim.{SimUser, SimState, has_pin}
use pumo_bio_metric.Sim.State.{same_ref}
use pumo_bio_metric.Sim.Users.{user_at}
use pumo_bio_metric.Sim.Delete.{find?-remaining_full}
use pumo_bio_metric.Migration.{
  MigrateRequest, copy_profile, place_for, place, write_profile, transfer_user, is_move, is_ok,
  wanted_pin, migrate_between,
}
use pumo_bio_metric.Migration.Simulated.{find?-update_profile}

-- A user who is wanted under the PIN that it has is updated in place.
place_self :
    (u : SimUser) (us : List SimUser) (pin : Text)
    → find? (has_pin pin) us ≡ some u
    → place pin u us ≡ (pin, true)
unfolding place place_for
place_self u us pin h = rw h (rw (same_refl u.name) refl)

gone :
    (u : SimUser) (us : List SimUser) (pin q : Text)
    → find? (has_pin pin) us ≡ some u
    → find?
        (has_pin q)
        (filter_by (λ v. not (has_pin pin v)) (update_first (has_pin pin) (copy_profile u) us))
      ≡ (if same pin q then none else find? (has_pin q) us)
gone u us pin q h = ground (
  arith,
  find?-update_profile pin q u u us h,
  find?-remaining_full pin q (update_first (has_pin pin) (copy_profile u) us),
)

module _ (r : MigrateRequest) (u : SimUser) (s : SimState) (moving : is_move r.mode ≡ true)
    (wanted : wanted_pin r.target_user_id r.user_id ≡ r.user_id) where
  transfer_user-same :
      (dev a : SimRef) (q : Text)
      → user_at dev r.user_id s ≡ some u
      → user_at a q (transfer_user r dev dev u s)
        ≡ (if same_ref dev a && same r.user_id q then none else user_at a q s)
  unfolding write_profile
  transfer_user-same sim_source sim_source q h =
      rw (moving, wanted, place_self u s.source_users r.user_id h)
        (gone u s.source_users r.user_id q h)
  transfer_user-same sim_source sim_target q h = rw moving refl
  transfer_user-same sim_target sim_source q h = rw moving refl
  transfer_user-same sim_target sim_target q h =
      rw (moving, wanted, place_self u s.target_users r.user_id h)
        (gone u s.target_users r.user_id q h)

-- A move from a reader to itself, under the user's own PIN, reports success and deletes the user:
-- no reader has the profile afterwards, and nothing else is changed.
pub migrate_between-same :
    (r : MigrateRequest) (src_sn tgt_sn : Text) (dev a : SimRef) (q : Text) (u : SimUser)
    (s : SimState)
    → is_move r.mode ≡ true
    → wanted_pin r.target_user_id r.user_id ≡ r.user_id
    → user_at dev r.user_id s ≡ some u
    → (is_ok (migrate_between r src_sn tgt_sn dev dev s).0 ≡ true)
      × (user_at a q (migrate_between r src_sn tgt_sn dev dev s).1
          ≡ (if same_ref dev a && same r.user_id q then none else user_at a q s))
unfolding migrate_between
migrate_between-same r src_sn tgt_sn dev a q u s moving wanted h =
    rw h (refl, transfer_user-same r u s moving wanted dev a q h)
