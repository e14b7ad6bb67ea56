-- ===== src/Migration/Run.antt =====
-- `migrate_single_user_simulated` as a whole: its failures, the invariant, and whose result it gives.
use pumo_bio_metric.Prelude.{
  ◌+◌, ◌≡◌, refl, Bool, true, false, List, [], ◌∷◌, map, arith, Option, none, some, find?,
  Bool-cases, inl, inr,
}
use pumo_bio_metric.Text.{Text, codes, same}
use pumo_bio_metric.Dict.{Dict}
use pumo_bio_metric.Device.{DeviceInfo, SimRef, resolve_device}
use pumo_bio_metric.Pin.Laws.{mapped_pin-free}
use pumo_bio_metric.Sim.{SimUser, SimState, users_of, has_pin, max_uid, sim_device}
use pumo_bio_metric.Sim.State.{
  same_ref, IsWellFormed, IsWellFormed-users_of, AreDistinct, set_users-IsWellFormed, max_uid-fresh,
  append-AreDistinct, filter_by-AreDistinct, update_first-AreDistinct,
}
use pumo_bio_metric.Sim.Users.{any-false-find?}
use pumo_bio_metric.Migration.{
  MigrateRequest, copy_profile, new_profile, place_for, place, write_profile, leave, transfer_user,
  is_move, is_ok, migrate_found, migrate_between, migrate_on, first_given,
  migrate_single_user_simulated,
}
use pumo_bio_metric.Migration.Pins.{find?-user_ids}
use pumo_bio_metric.Migration.Between.{Migrated, migrate_between-Migrated}

-- The readers that a request names.
abbrev pub source_device : Dict DeviceInfo → MigrateRequest → Option SimRef
source_device registry r =
    sim_device
      (resolve_device registry 4370 (first_given (some r.source_id ∷ []) (codes "NFZ8254900401")))

abbrev pub target_device : Dict DeviceInfo → MigrateRequest → Option SimRef
target_device registry r =
    sim_device
      (resolve_device registry 4370 (first_given (some r.target_id ∷ []) (codes "UFZ9876543210")))

-- A migration between readers that the registry resolves to two different simulated ones, when it
-- succeeds: the source reader had a user of that PIN; the target reader has, under the PIN that
-- the result names, a profile with the same name, rights, password, card and fingerprints, and
-- that PIN was free there or belonged to a user of the same name; a move takes the user off the
-- source reader and a copy does not; nobody else on any reader is changed.
pub migrate_single_user-Migrated :
    (registry : Dict DeviceInfo) (r : MigrateRequest) (src tgt : SimRef) (s : SimState)
    → source_device registry r ≡ some src
    → target_device registry r ≡ some tgt
    → same_ref src tgt ≡ false
    → is_ok (migrate_single_user_simulated registry r s).0 ≡ true
    → Migrated r src tgt s (migrate_single_user_simulated registry r s)
unfolding migrate_single_user_simulated migrate_on
migrate_single_user-Migrated registry r src tgt s hs ht ne =
    rw (hs, ht) (migrate_between-Migrated r _ _ src tgt s ne)

migrate_found-err :
    (r : MigrateRequest) (src_sn tgt_sn : Text) (src tgt : SimRef) (s : SimState)
    (o : Option SimUser)
    → is_ok (migrate_found r src_sn tgt_sn src tgt s o).0 ≡ false
    → (migrate_found r src_sn tgt_sn src tgt s o).1 ≡ s
unfolding migrate_found
migrate_found-err r src_sn tgt_sn src tgt s none h = refl
migrate_found-err r src_sn tgt_sn src tgt s (some u) h = absurd (ground (arith, h))

migrate_on-err :
    (r : MigrateRequest) (src_sn tgt_sn : Text) (src tgt : Option SimRef) (s : SimState)
    → is_ok (migrate_on r src_sn tgt_sn src tgt s).0 ≡ false
    → (migrate_on r src_sn tgt_sn src tgt s).1 ≡ s
unfolding migrate_on migrate_between
migrate_on-err r src_sn tgt_sn none tgt s h = refl
migrate_on-err r src_sn tgt_sn (some src) none s h = refl
migrate_on-err r src_sn tgt_sn (some src) (some tgt) s h =
    migrate_found-err r src_sn tgt_sn src tgt s _ h

-- A migration that fails leaves both readers as they were.
pub migrate_single_user-err :
    (registry : Dict DeviceInfo) (r : MigrateRequest) (s : SimState)
    → is_ok (migrate_single_user_simulated registry r s).0 ≡ false
    → (migrate_single_user_simulated registry r s).1 ≡ s
unfolding migrate_single_user_simulated
migrate_single_user-err registry r s = migrate_on-err r _ _ _ _ s

write_new-AreDistinct :
    (pin : Text) (u : SimUser) (us : List SimUser)
    → find? (has_pin pin) us ≡ none
    → AreDistinct us
    → AreDistinct (write_profile (pin, false) u us)
unfolding write_profile
write_new-AreDistinct pin u us h d =
    append-AreDistinct us (new_profile u (max_uid us + 1) pin) (any-false-find? (has_pin pin) us h)
      (max_uid-fresh us) d

write_update-AreDistinct :
    (pin : Text) (u : SimUser) (us : List SimUser)
    → AreDistinct us
    → AreDistinct (write_profile (pin, true) u us)
unfolding write_profile
write_update-AreDistinct pin u us d =
    update_first-AreDistinct (has_pin pin) (copy_profile u) us (λ v. (refl, refl)) d

place_for-AreDistinct :
    (want : Text) (u : SimUser) (us : List SimUser) (o : Option SimUser)
    → find? (has_pin want) us ≡ o
    → AreDistinct us
    → AreDistinct (write_profile (place_for want u us o) u us)
unfolding place_for
place_for-AreDistinct want u us none h d = write_new-AreDistinct want u us h d
place_for-AreDistinct want u us (some e) h d = elim (Bool-cases (same e.name u.name)) [
  | inl known ↦ rw known (write_update-AreDistinct want u us d)
  | inr other ↦ rw other (
      write_new-AreDistinct _ u us
        (find?-user_ids _ us (mapped_pin-free (map (λ (v : SimUser). v.user_id) us) want)) d)
]

leave-IsWellFormed :
    (moving : Bool) (pin : Text) (src : SimRef) (s : SimState)
    → IsWellFormed s
    → IsWellFormed (leave moving pin src s)
leave-IsWellFormed true pin src s w =
    set_users-IsWellFormed src _ (filter_by-AreDistinct _ _ (IsWellFormed-users_of src w)) w
leave-IsWellFormed false pin src s w = w

transfer_user-IsWellFormed :
    (r : MigrateRequest) (src tgt : SimRef) (u : SimUser) (s : SimState)
    → IsWellFormed s
    → IsWellFormed (transfer_user r src tgt u s)
unfolding place
transfer_user-IsWellFormed r src tgt u s w = leave-IsWellFormed (is_move r.mode) r.user_id src _ (
    set_users-IsWellFormed tgt _
      (place_for-AreDistinct _ u (users_of tgt s) _ refl (IsWellFormed-users_of tgt w)) w)

migrate_found-IsWellFormed :
    (r : MigrateRequest) (src_sn tgt_sn : Text) (src tgt : SimRef) (s : SimState)
    (o : Option SimUser)
    → IsWellFormed s
    → IsWellFormed (migrate_found r src_sn tgt_sn src tgt s o).1
unfolding migrate_found
migrate_found-IsWellFormed r src_sn tgt_sn src tgt s none w = w
migrate_found-IsWellFormed r src_sn tgt_sn src tgt s (some u) w =
    transfer_user-IsWellFormed r src tgt u s w

migrate_on-IsWellFormed :
    (r : MigrateRequest) (src_sn tgt_sn : Text) (src tgt : Option SimRef) (s : SimState)
    → IsWellFormed s
    → IsWellFormed (migrate_on r src_sn tgt_sn src tgt s).1
unfolding migrate_on migrate_between
migrate_on-IsWellFormed r src_sn tgt_sn none tgt s w = w
migrate_on-IsWellFormed r src_sn tgt_sn (some src) none s w = w
migrate_on-IsWellFormed r src_sn tgt_sn (some src) (some tgt) s w =
    migrate_found-IsWellFormed r src_sn tgt_sn src tgt s _ w

pub migrate_single_user-IsWellFormed :
    (registry : Dict DeviceInfo) (r : MigrateRequest) (s : SimState)
    → IsWellFormed s
    → IsWellFormed (migrate_single_user_simulated registry r s).1
unfolding migrate_single_user_simulated
migrate_single_user-IsWellFormed registry r s = migrate_on-IsWellFormed r _ _ _ _ s

migrate_found-user_id :
    (r : MigrateRequest) (src_sn tgt_sn : Text) (src tgt : SimRef) (s : SimState)
    (o : Option SimUser)
    → (migrate_found r src_sn tgt_sn src tgt s o).0.user_id ≡ r.user_id
unfolding migrate_found
migrate_found-user_id r src_sn tgt_sn src tgt s none = refl
migrate_found-user_id r src_sn tgt_sn src tgt s (some u) = refl

migrate_on-user_id :
    (r : MigrateRequest) (src_sn tgt_sn : Text) (src tgt : Option SimRef) (s : SimState)
    → (migrate_on r src_sn tgt_sn src tgt s).0.user_id ≡ r.user_id
unfolding migrate_on migrate_between
migrate_on-user_id r src_sn tgt_sn none tgt s = refl
migrate_on-user_id r src_sn tgt_sn (some src) none s = refl
migrate_on-user_id r src_sn tgt_sn (some src) (some tgt) s =
    migrate_found-user_id r src_sn tgt_sn src tgt s _

pub migrate_single_user-user_id :
    (registry : Dict DeviceInfo) (r : MigrateRequest) (s : SimState)
    → (migrate_single_user_simulated registry r s).0.user_id ≡ r.user_id
unfolding migrate_single_user_simulated
migrate_single_user-user_id registry r s = migrate_on-user_id r _ _ _ _ s
