-- ===== src/Migration/Simulated.antt =====
-- `migrate_single_user_simulated` between two different readers.
use pumo_bio_metric.Prelude.{
  ◌+◌, ◌≡◌, refl, ◌⊎◌, inl, inr, true, false, List, [], ◌∷◌, arith, if◌then◌else◌, Option, none,
  some, map, find?, update_first, Bool-cases,
}
use pumo_bio_metric.Text.{Text, same, same_iff}
use pumo_bio_metric.Pin.Laws.{mapped_pin-free}
use pumo_bio_metric.Sim.{SimUser, has_pin, max_uid}
use pumo_bio_metric.Sim.Users.{find?-add}
use pumo_bio_metric.Migration.{copy_profile, new_profile, place_for, place, write_profile}
use pumo_bio_metric.Migration.Pins.{find?-user_ids}

-- `v` has the name, the rights, the secrets and the fingerprints of `u`.
pub record Carries (u v : SimUser) : Type 0 where
  pub name : v.name ≡ u.name
  pub privilege : v.privilege ≡ u.privilege
  pub password : v.password ≡ u.password
  pub group_id : v.group_id ≡ u.group_id
  pub card : v.card ≡ u.card
  pub fingers : v.fingers ≡ u.fingers

pub find?-update_profile :
    (pin q : Text) (u e : SimUser) (us : List SimUser)
    → find? (has_pin pin) us ≡ some e
    → find? (has_pin q) (update_first (has_pin pin) (copy_profile u) us)
      ≡ (if same pin q then some (copy_profile u e) else find? (has_pin q) us)
unfolding find? update_first
find?-update_profile pin q u e [] h = ground arith
find?-update_profile pin q u e (v ∷ us) h = ground (
  arith,
  find?-update_profile pin q u e us,
  same_iff v.user_id pin,
  same_iff v.user_id q,
  same_iff pin q,
)

-- What the write leaves on the target reader.
pub record Written (u : SimUser) (us us' : List SimUser) (pin : Text) : Type 0 where
  pub profile : SimUser
  pub carries : Carries u profile
  pub found :
      (q : Text)
      → find? (has_pin q) us' ≡ (if same pin q then some profile else find? (has_pin q) us)
  pub safe :
      (find? (has_pin pin) us ≡ none)
      ⊎ ((e : SimUser) × (find? (has_pin pin) us ≡ some e) × (e.name ≡ u.name))

write_new :
    (u : SimUser) (us : List SimUser) (pin : Text)
    → find? (has_pin pin) us ≡ none
    → Written u us (write_profile (pin, false) u us) pin
unfolding write_profile
write_new u us pin h = record {
  profile = new_profile u (max_uid us + 1) pin;
  carries = record {
    name = refl;
    privilege = refl;
    password = refl;
    group_id = refl;
    card = refl;
    fingers = refl;
  };
  found = λ q. find?-add us (new_profile u (max_uid us + 1) pin) q h;
  safe = inl h;
}

write_update :
    (u e : SimUser) (us : List SimUser) (pin : Text)
    → find? (has_pin pin) us ≡ some e
    → e.name ≡ u.name
    → Written u us (write_profile (pin, true) u us) pin
unfolding write_profile
write_update u e us pin h n = record {
  profile = copy_profile u e;
  carries = record {
    name = refl;
    privilege = refl;
    password = refl;
    group_id = refl;
    card = refl;
    fingers = refl;
  };
  found = λ q. find?-update_profile pin q u e us h;
  safe = inr (e, h, n);
}

place_for-Written :
    (want : Text) (u : SimUser) (us : List SimUser) (o : Option SimUser)
    → find? (has_pin want) us ≡ o
    → Written u us (write_profile (place_for want u us o) u us) (place_for want u us o).0
unfolding place_for
place_for-Written want u us none h = write_new u us want h
place_for-Written want u us (some e) h = elim (Bool-cases (same e.name u.name)) [
  | inl known ↦ rw known (write_update u e us want h ((same_iff e.name u.name).0 known))
  | inr other ↦ rw other (
      write_new u us _
        (find?-user_ids _ us (mapped_pin-free (map (λ (v : SimUser). v.user_id) us) want)))
]

pub place-Written :
    (want : Text) (u : SimUser) (us : List SimUser)
    → Written u us (write_profile (place want u us) u us) (place want u us).0
unfolding place
place-Written want u us = place_for-Written want u us (find? (has_pin want) us) refl
