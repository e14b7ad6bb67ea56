-- ===== src/Router/Transfers.antt =====
-- What `/transfer-user` leaves in the table biometric_device_users.
use pumo_bio_metric.Prelude.{
  ◌≡◌, refl, Bool, true, false, not, ◌&&◌, List, [], ◌∷◌, ◌++◌, if◌then◌else◌, Option, none, some,
  arith, Bool-cases, Option-cases, inl, inr, any, find?, filter_by, update_first,
}
use pumo_bio_metric.Text.{Text, codes, same, same_iff}
use pumo_bio_metric.Migration.{MigrationResult}
use pumo_bio_metric.Router.Engine.{TransferCall}
use pumo_bio_metric.Router.Replies.{DeviceUser, is_entry, insert_user, drop_user}
use pumo_bio_metric.Router.Routes.{record_transfer, name_of, pin_of}

-- The row of a reader and a PIN.
abbrev pub entry_of : Text → Text → List DeviceUser → Option DeviceUser
entry_of serial pin = find? (is_entry serial pin)

abbrev pub is_unplaced : Option Text → Bool
is_unplaced none = true
is_unplaced (some _) = false

-- The row of a PIN that names no reader.
abbrev pub unplaced_of : Text → List DeviceUser → Option DeviceUser
unplaced_of pin =
    find? (λ (u : DeviceUser). is_unplaced u.device_serial && same u.device_user_id pin)

-- The row that an insertion leaves, from the one that was there.
abbrev pub after_insert : Text → Text → Text → Option DeviceUser → DeviceUser
after_insert serial pin name (some u) = record u { name = name }
after_insert serial pin name none = record {
  device_serial = some serial;
  device_user_id = pin;
  name = name;
  role = codes "Normal User";
}

module _ (serial pin name s q : Text) where
  entry-update_first :
      (users : List DeviceUser)
      → any (is_entry serial pin) users ≡ true
      → entry_of s q (update_first (is_entry serial pin) (λ u. record u { name = name }) users) ≡ (
          if same serial s && same pin q
          then some (after_insert serial pin name (entry_of serial pin users))
          else entry_of s q users)
  unfolding any find? update_first
  entry-update_first [] h = absurd (ground (arith, h))
  entry-update_first (u ∷ users) h = elim (Option-cases u.device_serial) [
    | inl e ↦ ground (arith, e, h, entry-update_first users)
    | inr (t, e) ↦ ground (
      arith,
      e,
      h,
      entry-update_first users,
      same_iff t serial,
      same_iff t s,
      same_iff serial s,
      same_iff u.device_user_id pin,
      same_iff u.device_user_id q,
      same_iff pin q,
    )
  ]

  entry-absent :
      (users : List DeviceUser)
      → any (is_entry serial pin) users ≡ false
      → entry_of serial pin users ≡ none
  unfolding any find?
  entry-absent [] h = refl
  entry-absent (u ∷ users) h = ground (arith, entry-absent users)

  entry-append :
      (users : List DeviceUser) (v : DeviceUser)
      → entry_of serial pin users ≡ none
      → v.device_serial ≡ some serial
      → v.device_user_id ≡ pin
      → entry_of s q (users ++ v ∷ [])
        ≡ (if same serial s && same pin q then some v else entry_of s q users)
  unfolding find?
  entry-append [] v h e f = rw (e, f) refl
  entry-append (u ∷ users) v h e f = elim (Option-cases u.device_serial) [
    | inl g ↦ ground (arith, g, h, entry-append users v)
    | inr (t, g) ↦ ground (
      arith,
      g,
      h,
      entry-append users v,
      same_iff t serial,
      same_iff t s,
      same_iff serial s,
      same_iff u.device_user_id pin,
      same_iff u.device_user_id q,
      same_iff pin q,
    )
  ]

  entry-insert_user :
      (users : List DeviceUser)
      → entry_of s q (insert_user serial pin name users) ≡ (
          if same serial s && same pin q
          then some (after_insert serial pin name (entry_of serial pin users))
          else entry_of s q users)
  unfolding insert_user
  entry-insert_user users = elim (Bool-cases (any (is_entry serial pin) users)) [
    | inl old ↦ rw old (entry-update_first users old)
    | inr new ↦
        rw (new, entry-absent users new) (entry-append users _ (entry-absent users new) refl refl)
  ]

  entry-drop_user :
      (users : List DeviceUser)
      → entry_of s q (drop_user serial pin users)
        ≡ (if same serial s && same pin q then none else entry_of s q users)
  unfolding drop_user find? filter_by
  entry-drop_user [] = ground arith
  entry-drop_user (u ∷ users) = elim (Option-cases u.device_serial) [
    | inl e ↦ ground (arith, e, entry-drop_user users)
    | inr (t, e) ↦ ground (
      arith,
      e,
      entry-drop_user users,
      same_iff t serial,
      same_iff t s,
      same_iff serial s,
      same_iff u.device_user_id pin,
      same_iff u.device_user_id q,
      same_iff pin q,
    )
  ]

  unplaced-update_first :
      (users : List DeviceUser)
      → unplaced_of q (update_first (is_entry serial pin) (λ u. record u { name = name }) users)
        ≡ unplaced_of q users
  unfolding find? update_first
  unplaced-update_first [] = refl
  unplaced-update_first (u ∷ users) = elim (Option-cases u.device_serial) [
    | inl e ↦ ground (arith, e, unplaced-update_first users)
    | inr (t, e) ↦ ground (arith, e, unplaced-update_first users)
  ]

  unplaced-append :
      (users : List DeviceUser) (v : DeviceUser)
      → v.device_serial ≡ some serial
      → unplaced_of q (users ++ v ∷ []) ≡ unplaced_of q users
  unfolding find?
  unplaced-append [] v e = rw e refl
  unplaced-append (u ∷ users) v e = ground (arith, unplaced-append users v e)

  unplaced-insert_user :
      (users : List DeviceUser)
      → unplaced_of q (insert_user serial pin name users) ≡ unplaced_of q users
  unfolding insert_user
  unplaced-insert_user users = elim (Bool-cases (any (is_entry serial pin) users)) [
    | inl old ↦ rw old (unplaced-update_first users)
    | inr new ↦ rw new (unplaced-append users _ refl)
  ]

  unplaced-drop_user :
      (users : List DeviceUser)
      → unplaced_of q (drop_user serial pin users)
        ≡ (if same pin q then none else unplaced_of q users)
  unfolding drop_user find? filter_by
  unplaced-drop_user [] = ground arith
  unplaced-drop_user (u ∷ users) = elim (Option-cases u.device_serial) [
    | inl e ↦ ground (
      arith,
      e,
      unplaced-drop_user users,
      same_iff u.device_user_id pin,
      same_iff u.device_user_id q,
      same_iff pin q,
    )
    | inr (t, e) ↦ ground (arith, e, unplaced-drop_user users)
  ]

-- A transfer of a user that is recorded: the row of the target reader and the new PIN has the user's name,
-- and keeps its role where there was such a row; after a move the source reader has no row of the old
-- PIN, even where that row is the one just written; every other row of a reader and a PIN is found as before. A row that names no reader is found as before
-- for every PIN, but none for the old PIN after a move. Where the database fails, both are found as before.
pub record_transfer-entry_of :
    (works : Bool) (c : TransferCall) (r : MigrationResult) (users : List DeviceUser) (s q : Text)
    → (entry_of s q (record_transfer works c r users) ≡ (
        if not works
        then entry_of s q users
        else if same c.mode (codes "move") && (same c.source_id s && same c.user_id q)
        then none
        else if same c.target_id s && same (pin_of c r) q
        then some (
            after_insert c.target_id
              (pin_of c r)
              (name_of c r)
              (entry_of c.target_id (pin_of c r) users))
        else entry_of s q users))
      × (unplaced_of q (record_transfer works c r users) ≡ (
          if works && (same c.mode (codes "move") && same c.user_id q)
          then none
          else unplaced_of q users))
unfolding record_transfer
record_transfer-entry_of works c r users s q = (
  ground (
    arith,
    entry-insert_user c.target_id (pin_of c r) (name_of c r) s q users,
    entry-drop_user c.source_id c.user_id (name_of c r) s q
        (insert_user c.target_id (pin_of c r) (name_of c r) users),
  ),
  ground (
    arith,
    unplaced-insert_user c.target_id (pin_of c r) (name_of c r) s q users,
    unplaced-drop_user c.source_id c.user_id (name_of c r) s q
        (insert_user c.target_id (pin_of c r) (name_of c r) users),
  ),
)
