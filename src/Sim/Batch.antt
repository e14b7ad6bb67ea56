-- ===== src/Sim/Batch.antt =====
-- `delete_batch_device_users` on a simulated reader
use pumo_bio_metric.Prelude.{
  ◌≡◌, ◌≤◌, refl, Bool, true, false, ◌&&◌, List, [], ◌∷◌, arith, if◌then◌else◌, Option, none, some,
  any, length, count_by-le-length, count_by,
}
use pumo_bio_metric.Text.{Text, same}
use pumo_bio_metric.Dict.{Dict}
use pumo_bio_metric.Device.{DeviceInfo, SimRef, resolve_device}
use pumo_bio_metric.Sim.{
  SimUser, SimState, sim_device, delete_device_user_simulated, delete_each, delete_batch_simulated,
  was_deleted,
}
use pumo_bio_metric.Sim.State.{same_ref, IsWellFormed}
use pumo_bio_metric.Sim.Users.{user_at}
use pumo_bio_metric.Sim.Delete.{
  after_delete, delete_device_user-user_at, delete_device_user-IsWellFormed,
}

after_delete_twice :
    (only : Bool) (o : Option SimUser)
    → after_delete only (after_delete only o) ≡ after_delete only o
after_delete_twice true none = refl
after_delete_twice true (some u) = refl
after_delete_twice false o = refl

module _ (registry : Dict DeviceInfo) (device_id : Text) (only : Bool) where
  delete_each-user_at :
      (pins : List Text) (s : SimState) (dev a : SimRef) (q : Text)
      → sim_device (resolve_device registry 4370 device_id) ≡ some dev
      → user_at a q (delete_each registry device_id pins only s).1 ≡ (
          if same_ref dev a && any (λ p. same p q) pins
          then after_delete only (user_at a q s)
          else user_at a q s)
  unfolding delete_each any
  delete_each-user_at [] s dev a q h = ground arith
  delete_each-user_at (p ∷ pins) s dev a q h =
      let s' = (delete_device_user_simulated registry device_id p only s).1 in
      ground (
        arith,
        delete_each-user_at pins s' dev a q h,
        delete_device_user-user_at registry device_id p only s dev a q h,
        after_delete_twice only (user_at a q s),
      )

  delete_each-length :
      (pins : List Text) (s : SimState)
      → length (delete_each registry device_id pins only s).0 ≡ length pins
  unfolding delete_each
  delete_each-length [] s = refl
  delete_each-length (p ∷ pins) s = omega (arith, delete_each-length pins _)

  pub delete_each-IsWellFormed :
      (pins : List Text) (s : SimState)
      → IsWellFormed s
      → IsWellFormed (delete_each registry device_id pins only s).1
  unfolding delete_each
  delete_each-IsWellFormed [] s w = w
  delete_each-IsWellFormed (p ∷ pins) s w =
      delete_each-IsWellFormed pins _
        (delete_device_user-IsWellFormed registry device_id p only s w)

count_by-le :
    (registry : Dict DeviceInfo) (device_id : Text) (only : Bool) (pins : List Text) (s : SimState)
    → count_by was_deleted (delete_each registry device_id pins only s).0 ≤ length pins
count_by-le registry device_id only pins s = omega (
  arith,
  delete_each-length registry device_id only pins s,
  count_by-le-length was_deleted (delete_each registry device_id pins only s).0,
)

-- After a batch on a simulated reader every requested PIN finds nobody, or after a wipe of the
-- fingerprints alone the same user without fingerprints; no other PIN and no other reader is
-- touched; the reply has a result for each requested PIN and counts no more deletions than that.
pub delete_batch-user_at :
    (registry : Dict DeviceInfo) (device_id : Text) (only : Bool) (pins : List Text) (s : SimState)
    (dev a : SimRef) (q : Text)
    → sim_device (resolve_device registry 4370 device_id) ≡ some dev
    → (user_at a q (delete_batch_simulated registry device_id pins only s).1 ≡ (
        if same_ref dev a && any (λ p. same p q) pins
        then after_delete only (user_at a q s)
        else user_at a q s))
      × (length (delete_batch_simulated registry device_id pins only s).0.results ≡ length pins)
      × ((delete_batch_simulated registry device_id pins only s).0.deleted_count ≤ length pins)
unfolding delete_batch_simulated
delete_batch-user_at registry device_id only pins s dev a q h = (
  delete_each-user_at registry device_id only pins s dev a q h,
  delete_each-length registry device_id only pins s,
  count_by-le registry device_id only pins s,
)
