-- ===== src/Migration/Pins.antt =====
-- `resolve_target_pin` never gives a user the PIN of somebody else.
use pumo_bio_metric.Prelude.{
  ◌≡◌, refl, ◌⊎◌, inl, inr, Bool, true, false, not, List, [], ◌∷◌, arith, Option, none, some, map,
  any, find?, Bool-cases,
}
use pumo_bio_metric.Text.{Text, same, same_iff, same_refl, strip}
use pumo_bio_metric.Pin.{mapped_pin}
use pumo_bio_metric.Pin.Laws.{mapped_pin-free}
use pumo_bio_metric.Sim.{SimUser, has_pin}
use pumo_bio_metric.Migration.{
  Existing, PinCheck, existing_pins, same_person, check_holder, resolve_target_pin,
}

abbrev pub holds_pin : Text → Existing → Bool
holds_pin pin e = same e.user_id pin

find?-existing_pins :
    (pin : Text) (users : List Existing)
    → any (same pin) (existing_pins users) ≡ false
    → find? (holds_pin pin) users ≡ none
unfolding any find?
find?-existing_pins pin [] h = refl
find?-existing_pins pin (e ∷ users) h =
    ground (arith, find?-existing_pins pin users, same_iff pin e.user_id, same_iff e.user_id pin)

pub find?-mapped_pin :
    (users : List Existing) (pin : Text)
    → find? (holds_pin (mapped_pin (existing_pins users) pin)) users ≡ none
find?-mapped_pin users pin = find?-existing_pins _ users (mapped_pin-free (existing_pins users) pin)

pub find?-user_ids :
    (pin : Text) (users : List SimUser)
    → any (same pin) (map (λ (v : SimUser). v.user_id) users) ≡ false
    → find? (has_pin pin) users ≡ none
unfolding any find?
find?-user_ids pin [] h = refl
find?-user_ids pin (u ∷ users) h =
    ground (arith, find?-user_ids pin users, same_iff pin u.user_id, same_iff u.user_id pin)

-- What is found under one text and not under the other tells the texts apart.
differs :
    (p q : Text) (e : Existing) (users : List Existing)
    → find? (holds_pin p) users ≡ some e
    → find? (holds_pin q) users ≡ none
    → same q p ≡ false
unfolding find?
differs p q e users h k = ground (arith, h, k, same_iff q p)

-- `pin` is free, or whoever has it goes by the user's name.
abbrev pub IsSafePin : List Existing → Option Text → Text → Type 0
IsSafePin users user_name pin =
    (find? (holds_pin pin) users ≡ none)
    ⊎ ((e : Existing) × (find? (holds_pin pin) users ≡ some e)
        × (same_person user_name e.name ≡ true))

check_holder-safe :
    (device : Text) (users : List Existing) (pref : Text) (user_name : Option Text)
    (o : Option Existing)
    → find? (holds_pin pref) users ≡ o
    → let c : PinCheck = check_holder device users pref user_name o in
      IsSafePin users user_name c.target_pin
      × (c.preferred_pin ≡ pref)
      × (same c.target_pin pref ≡ not c.is_mapped)
unfolding check_holder
check_holder-safe device users pref user_name none h = (inl h, refl, same_refl pref)
check_holder-safe device users pref user_name (some e) h =
    elim (Bool-cases (same_person user_name e.name)) [
      | inl yes_same ↦ rw yes_same (inr (e, h, yes_same), refl, same_refl pref)
      | inr other ↦ rw other (
        inl (find?-mapped_pin users pref),
        refl,
        differs pref _ e users h (find?-mapped_pin users pref),
      )
    ]

-- The PIN that the check returns is one that nobody on the target reader has, or one whose holder
-- goes by the name of the user that moves in; it differs from the preferred PIN, which is the one
-- asked for without surrounding blanks, exactly when the check says that it is mapped.
pub resolve_target_pin-safe :
    (device : Text) (users : List Existing) (preferred : Text) (user_name : Option Text)
    → let c : PinCheck = resolve_target_pin device users preferred user_name in
      IsSafePin users user_name c.target_pin
      × (c.preferred_pin ≡ strip preferred)
      × (same c.target_pin (strip preferred) ≡ not c.is_mapped)
unfolding resolve_target_pin
resolve_target_pin-safe device users preferred user_name =
    check_holder-safe device users (strip preferred) user_name _ refl
