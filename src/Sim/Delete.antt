-- ===== src/Sim/Delete.antt =====
-- `delete_device_user_simulated`
use pumo_bio_metric.Prelude.{
  ◌≡◌, refl, Bool, true, false, not, ◌&&◌, List, [], ◌∷◌, arith, if◌then◌else◌, Option, none, some,
  any, find?, filter_by, update_first, Bool-cases, inl, inr, ok, err,
}
use mathlib.Core.Option
use pumo_bio_metric.Text.{Text, same, same_iff}
use pumo_bio_metric.Dict.{Dict}
use pumo_bio_metric.Device.{DeviceInfo, SimRef, sim_source, sim_target, resolve_device}
use pumo_bio_metric.Sim.{
  SimUser, SimState, device_not_found, users_of, set_users, has_pin, sim_device, clear_fingers,
  delete_from, delete_on, delete_device_user_simulated, was_deleted, DeleteReply,
}
use pumo_bio_metric.Sim.State.{
  same_ref, IsWellFormed, IsWellFormed-users_of, AreDistinct, set_users-IsWellFormed,
  filter_by-AreDistinct, update_first-AreDistinct,
}
use pumo_bio_metric.Sim.Users.{user_at}

-- What a deletion leaves under the PIN that it names.
abbrev pub after_delete : Bool → Option SimUser → Option SimUser
after_delete true o = Option.map clear_fingers o
after_delete false o = none

after_delete-none : (only : Bool) → none ≡ after_delete only none
after_delete-none true = refl
after_delete-none false = refl

abbrev remaining : Bool → Text → List SimUser → List SimUser
remaining only pin us =
    if only
    then update_first (has_pin pin) clear_fingers us
    else filter_by (λ u. not (has_pin pin u)) us

find?-remaining_wipe :
    (pin q : Text) (us : List SimUser)
    → find? (has_pin q) (update_first (has_pin pin) clear_fingers us) ≡ (
        if same pin q
        then Option.map clear_fingers (find? (has_pin q) us)
        else find? (has_pin q) us)
unfolding find? update_first
find?-remaining_wipe pin q [] = ground arith
find?-remaining_wipe pin q (u ∷ us) = ground (
  arith,
  find?-remaining_wipe pin q us,
  same_iff u.user_id pin,
  same_iff u.user_id q,
  same_iff pin q,
)

pub find?-remaining_full :
    (pin q : Text) (us : List SimUser)
    → find? (has_pin q) (filter_by (λ u. not (has_pin pin u)) us)
      ≡ (if same pin q then none else find? (has_pin q) us)
unfolding find? filter_by
find?-remaining_full pin q [] = ground arith
find?-remaining_full pin q (u ∷ us) = ground (
  arith,
  find?-remaining_full pin q us,
  same_iff u.user_id pin,
  same_iff u.user_id q,
  same_iff pin q,
)

find?-remaining :
    (only : Bool) (pin q : Text) (us : List SimUser)
    → find? (has_pin q) (remaining only pin us)
      ≡ (if same pin q then after_delete only (find? (has_pin q) us) else find? (has_pin q) us)
find?-remaining true pin q us = find?-remaining_wipe pin q us
find?-remaining false pin q us = find?-remaining_full pin q us

-- A PIN that is on nobody's profile is found by no search, deleted or not.
absent :
    (pin q : Text) (us : List SimUser)
    → any (has_pin pin) us ≡ false
    → same pin q ≡ true
    → find? (has_pin q) us ≡ none
unfolding any find?
absent pin q [] h e = refl
absent pin q (u ∷ us) h e =
    ground (arith, absent pin q us, same_iff u.user_id pin, same_iff u.user_id q, same_iff pin q)

user_at-set_remaining :
    (only : Bool) (dev a : SimRef) (pin q : Text) (s : SimState)
    → user_at a q (set_users dev (remaining only pin (users_of dev s)) s)
      ≡ (if same_ref dev a && same pin q then after_delete only (user_at a q s) else user_at a q s)
user_at-set_remaining only sim_source sim_source pin q s = find?-remaining only pin q s.source_users
user_at-set_remaining only sim_source sim_target pin q s = refl
user_at-set_remaining only sim_target sim_source pin q s = refl
user_at-set_remaining only sim_target sim_target pin q s = find?-remaining only pin q s.target_users

absent_here :
    (only : Bool) (pin q : Text) (us : List SimUser)
    → any (has_pin pin) us ≡ false
    → find? (has_pin q) us
      ≡ (if same pin q then after_delete only (find? (has_pin q) us) else find? (has_pin q) us)
absent_here only pin q us h = elim (Bool-cases (same pin q)) [
  | inl e ↦ rw (e, absent pin q us h e) (after_delete-none only)
  | inr e ↦ rw e
]

absent-after :
    (only : Bool) (dev a : SimRef) (pin q : Text) (s : SimState)
    → any (has_pin pin) (users_of dev s) ≡ false
    → user_at a q s
      ≡ (if same_ref dev a && same pin q then after_delete only (user_at a q s) else user_at a q s)
absent-after only sim_source sim_source pin q s h = absent_here only pin q s.source_users h
absent-after only sim_source sim_target pin q s h = refl
absent-after only sim_target sim_source pin q s h = refl
absent-after only sim_target sim_target pin q s h = absent_here only pin q s.target_users h

delete_from-user_at :
    (only : Bool) (sn : Text) (dev a : SimRef) (pin q : Text) (s : SimState)
    → user_at a q (delete_from pin only sn dev s).1
      ≡ (if same_ref dev a && same pin q then after_delete only (user_at a q s) else user_at a q s)
delete_from-user_at only sn dev a pin q s = elim (Bool-cases (any (has_pin pin) (users_of dev s))) [
  | inl found ↦ rw found (user_at-set_remaining only dev a pin q s)
  | inr missing ↦ rw missing (absent-after only dev a pin q s missing)
]

-- On a simulated reader a deletion succeeds and reports whether the reader had the PIN; after it
-- the PIN finds nobody, or after a wipe of the fingerprints alone the same user without
-- fingerprints, and what every other PIN finds and every other reader has is unchanged.
pub delete_device_user-user_at :
    (registry : Dict DeviceInfo) (device_id pin : Text) (only : Bool) (s : SimState)
    (dev a : SimRef) (q : Text)
    → sim_device (resolve_device registry 4370 device_id) ≡ some dev
    → (was_deleted (delete_device_user_simulated registry device_id pin only s).0
        ≡ any (has_pin pin) (users_of dev s))
      × (user_at a q (delete_device_user_simulated registry device_id pin only s).1 ≡ (
          if same_ref dev a && same pin q
          then after_delete only (user_at a q s)
          else user_at a q s))
unfolding delete_device_user_simulated
delete_device_user-user_at registry device_id pin only s dev a q h =
    (rw h (ground arith), rw h (delete_from-user_at only _ dev a pin q s))

delete_from-ok :
    (pin : Text) (only : Bool) (sn : Text) (dev : SimRef) (s : SimState)
    → (r : DeleteReply) × ((delete_from pin only sn dev s).0 ≡ ok r)
delete_from-ok pin only sn dev s = elim (Bool-cases (any (has_pin pin) (users_of dev s))) [
  | inl found ↦ rw found (_, refl)
  | inr missing ↦ rw missing (_, refl)
]

-- On a reader that the simulator has, a deletion is no error.
pub delete_device_user-ok :
    (registry : Dict DeviceInfo) (device_id pin : Text) (only : Bool) (s : SimState) (dev : SimRef)
    → sim_device (resolve_device registry 4370 device_id) ≡ some dev
    → (r : DeleteReply) × ((delete_device_user_simulated registry device_id pin only s).0 ≡ ok r)
unfolding delete_device_user_simulated delete_on
delete_device_user-ok registry device_id pin only s dev h = rw h (delete_from-ok pin only _ dev s)

-- A deletion on a reader that the simulator does not have is refused and changes nothing.
pub delete_device_user-unknown :
    (registry : Dict DeviceInfo) (device_id pin : Text) (only : Bool) (s : SimState)
    → sim_device (resolve_device registry 4370 device_id) ≡ none
    → delete_device_user_simulated registry device_id pin only s ≡ (err device_not_found, s)
unfolding delete_device_user_simulated
delete_device_user-unknown registry device_id pin only s h = rw h

remaining-AreDistinct :
    (only : Bool) (pin : Text) (us : List SimUser)
    → AreDistinct us
    → AreDistinct (remaining only pin us)
remaining-AreDistinct true pin us d =
    update_first-AreDistinct (has_pin pin) clear_fingers us (λ u. (refl, refl)) d
remaining-AreDistinct false pin us d = filter_by-AreDistinct (λ u. not (has_pin pin u)) us d

delete_on-IsWellFormed :
    (o : Option SimRef) (pin : Text) (only : Bool) (sn : Text) (s : SimState)
    → IsWellFormed s
    → IsWellFormed (delete_on o pin only sn s).1
unfolding delete_on
delete_on-IsWellFormed none pin only sn s w = w
delete_on-IsWellFormed (some dev) pin only sn s w =
    elim (Bool-cases (any (has_pin pin) (users_of dev s))) [
      | inl found ↦ rw found (
          set_users-IsWellFormed dev _
            (remaining-AreDistinct only pin (users_of dev s) (IsWellFormed-users_of dev w)) w)
      | inr missing ↦ rw missing w
    ]

-- A deletion keeps PINs and uids distinct on every reader.
pub delete_device_user-IsWellFormed :
    (registry : Dict DeviceInfo) (device_id pin : Text) (only : Bool) (s : SimState)
    → IsWellFormed s
    → IsWellFormed (delete_device_user_simulated registry device_id pin only s).1
unfolding delete_device_user_simulated
delete_device_user-IsWellFormed registry device_id pin only s w =
    delete_on-IsWellFormed _ pin only _ s w
