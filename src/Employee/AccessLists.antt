-- ===== src/Employee/AccessLists.antt =====
-- The access list of an employee after a move and after a copy.
use pumo_bio_metric.Prelude.{
  ◌≡◌, refl, true, false, not, List, [], ◌∷◌, ◌++◌, arith, if◌then◌else◌, Option, none, some, any,
  find?, filter_by, update_first, Bool-cases, inl, inr,
}
use pumo_bio_metric.Text.{Text, same, same_iff}
use pumo_bio_metric.Employee.{Access, on_device}
use pumo_bio_metric.Employee.Service.{set_access, new_access, moved_access, copied_access}

-- The entry of a reader.
abbrev pub access_at : Text → List Access → Option Access
access_at sn = find? (on_device sn)

-- The entry that `set_access` leaves for its reader.
abbrev pub set_entry : (Access → Access) → Access → Option Access → Access
set_entry change new none = new
set_entry change new (some a) = change a

access_at-append :
    (q : Text) (new : Access) (access : List Access)
    → any (on_device new.device_sn) access ≡ false
    → access_at q (access ++ new ∷ [])
      ≡ (if same new.device_sn q then some new else access_at q access)
unfolding find? any
access_at-append q new [] h = refl
access_at-append q new (a ∷ access) h = ground (
  arith,
  access_at-append q new access,
  same_iff new.device_sn q,
  same_iff a.device_sn q,
  same_iff a.device_sn new.device_sn,
)

access_at-absent :
    (sn : Text) (access : List Access)
    → any (on_device sn) access ≡ false
    → access_at sn access ≡ none
unfolding find? any
access_at-absent sn [] h = refl
access_at-absent sn (a ∷ access) h = ground (arith, access_at-absent sn access)

access_at-update :
    (sn q : Text) (change : Access → Access) (new : Access) (access : List Access)
    → ((a : Access) → (change a).device_sn ≡ a.device_sn)
    → any (on_device sn) access ≡ true
    → access_at q (update_first (on_device sn) change access) ≡ (
        if same sn q then some (set_entry change new (access_at sn access)) else access_at q access)
unfolding find? any update_first
access_at-update sn q change new [] k h = ground (arith, h)
access_at-update sn q change new (a ∷ access) k h = ground (
  arith,
  access_at-update sn q change new access k,
  k a,
  same_iff sn q,
  same_iff a.device_sn sn,
  same_iff a.device_sn q,
  same_iff (change a).device_sn q,
)

pub access_at-set_access :
    (sn q : Text) (change : Access → Access) (new : Access) (access : List Access)
    → ((a : Access) → (change a).device_sn ≡ a.device_sn)
    → new.device_sn ≡ sn
    → access_at q (set_access sn change new access) ≡ (
        if same sn q then some (set_entry change new (access_at sn access)) else access_at q access)
unfolding set_access
access_at-set_access sn q change new access k e = elim (Bool-cases (any (on_device sn) access)) [
  | inl old ↦ rw old (access_at-update sn q change new access k old)
  | inr fresh ↦
      rw (fresh, access_at-absent sn access fresh, ← e) (access_at-append q new access (rw e fresh))
]

pub access_at-without :
    (sn q : Text) (access : List Access)
    → access_at q (filter_by (λ a. not (on_device sn a)) access)
      ≡ (if same sn q then none else access_at q access)
unfolding find? filter_by
access_at-without sn q [] = ground arith
access_at-without sn q (a ∷ access) = ground (
  arith,
  access_at-without sn q access,
  same_iff a.device_sn sn,
  same_iff a.device_sn q,
  same_iff sn q,
)

abbrev move_entry : Text → Access → Access
move_entry pin a = record a { pin = pin; primary = true }

abbrev copy_entry : Text → Access → Access
copy_entry pin a = record a { pin = pin }

move_entry_lem :
    (tgt pin : Text) (o : Option Access)
    → ((set_entry (move_entry pin) (new_access tgt pin true) o).pin ≡ pin)
      × ((set_entry (move_entry pin) (new_access tgt pin true) o).primary ≡ true)
move_entry_lem tgt pin none = (refl, refl)
move_entry_lem tgt pin (some a) = (refl, refl)

copy_entry_lem :
    (tgt pin : Text) (o : Option Access)
    → (set_entry (copy_entry pin) (new_access tgt pin false) o).pin ≡ pin
copy_entry_lem tgt pin none = refl
copy_entry_lem tgt pin (some a) = refl

-- After a move to a reader the source reader has no entry, unless it is the target; the target
-- reader has one with the given PIN, marked primary; and every other entry is as it was.
pub access_at-moved_access :
    (src tgt pin : Text) (access : List Access)
    → (a : Access) × (a.pin ≡ pin)
      × (a.primary ≡ true)
      × ((q : Text)
          → access_at q (moved_access src tgt pin access)
            ≡ (if same tgt q then some a else if same src q then none else access_at q access))
unfolding moved_access
access_at-moved_access src tgt pin access =
    let left = filter_by (λ a. not (on_device src a)) access in
    (
      set_entry (move_entry pin) (new_access tgt pin true) (access_at tgt left),
      (move_entry_lem tgt pin (access_at tgt left)).0,
      (move_entry_lem tgt pin (access_at tgt left)).1,
      λ q.
          rw
            (access_at-set_access tgt q (move_entry pin) (new_access tgt pin true) left (λ a. refl)
              refl)
            (rw (access_at-without src q access) refl),
    )

-- After a copy to a reader that reader has an entry with the given PIN, and every other entry is
-- as it was.
pub access_at-copied_access :
    (tgt pin : Text) (access : List Access)
    → (a : Access) × (a.pin ≡ pin)
      × ((q : Text)
          → access_at q (copied_access tgt pin access)
            ≡ (if same tgt q then some a else access_at q access))
unfolding copied_access
access_at-copied_access tgt pin access = (
  set_entry (copy_entry pin) (new_access tgt pin false) (access_at tgt access),
  copy_entry_lem tgt pin (access_at tgt access),
  λ q.
      access_at-set_access tgt q (copy_entry pin) (new_access tgt pin false) access (λ a. refl)
        refl,
)
