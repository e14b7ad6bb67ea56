-- ===== src/Hardware/Places/Created.antt =====
-- Where `create_device_user` writes the user on a hardware reader.
use pumo_bio_metric.Prelude.{
  ℕ, ◌+◌, ◌<◌, ◌≡◌, refl, Bool, true, false, ◌||◌, List, [], ◌∷◌, any, find?, Option, none, some,
  Result, arith, Bool-cases, inl, inr, ltb, length,
}
use pumo_bio_metric.Text.{Text, strip, is_empty}
use pumo_bio_metric.Text.Numbers.{pos}
use pumo_bio_metric.Dict.{Dict}
use pumo_bio_metric.Pin.{contains}
use pumo_bio_metric.Device.{DeviceInfo, Resolved}
use pumo_bio_metric.Migration.{MigrateRequest}
use pumo_bio_metric.Sim.{CreateRequest}
use pumo_bio_metric.Hardware.{HwUser, Driver, Hw}
use pumo_bio_metric.Hardware.Triples.{
  Post, Triple, Holds, >>=-Triple, weaken_before, pure-Triple, raise-Triple, note-Triple,
}
use pumo_bio_metric.Hardware.Migrate.{user_has, uids, migrate_single_user_real}
use pumo_bio_metric.Hardware.Places.Moved.{migrate_single_user_real-is_placed}
use pumo_bio_metric.Hardware.Places.{
  fits, is_placed, Placed, run-Placed, connect-Placed, get_users-Placed, pure-Placed, Listed,
  listed-Triple, set_user-Written, close-is_placed,
}
use pumo_bio_metric.Hardware.Accounts.{
  AccountReply, AccountError, max_uid, new_hw_user, created_on, create_user, create_body,
  or_queue_create, create_run, create_device_user_real,
}

find?-any :
    (pin : Text) (users : List HwUser)
    → any (user_has pin) users ≡ false
    → find? (user_has pin) users ≡ none
unfolding any find?
find?-any pin [] h = refl
find?-any pin (u ∷ users) h = ground (arith, find?-any pin users)

uid-max_uid :
    (users : List HwUser) (n : ℕ) → max_uid users < n → contains (uids users) (pos n) ≡ false
unfolding max_uid
uid-max_uid [] n h = refl
uid-max_uid (u ∷ users) n h = ground (arith, uid-max_uid users n, h)

module _ (D : Driver) (d : Resolved) (r : CreateRequest) where
  new_hw_user-fits :
      (users : List HwUser)
      → any (user_has (strip r.user_id)) users ≡ false
      → fits (new_hw_user D d r (max_uid users + 1)) (some users) ≡ true
  new_hw_user-fits users h =
      rw (find?-any _ users h, uid-max_uid users (max_uid users + 1) (omega arith)) refl

  created_on-Placed : (o : Option HwUser) → Holds Placed (created_on D d (strip r.user_id) o)
  unfolding is_placed
  created_on-Placed none = raise-Triple (λ h p. p)
  created_on-Placed (some u) =
      >>=-Triple (note-Triple {Q = Placed} _ (λ h p. p)) (λ _. pure-Placed D _)

  create_user-Placed :
      (users : List HwUser) → Triple (Listed D users) (create_user D d r users) (λ _. Placed) Placed
  unfolding create_user
  create_user-Placed users = elim (Bool-cases (any (user_has (strip r.user_id)) users)) [
    | inl t ↦ rw t (pure-Triple _ (λ h p. p.0))
    | inr f ↦ rw f (
        >>=-Triple (set_user-Written D users _ (new_hw_user-fits users f)) (λ _.
          >>=-Triple (weaken_before (λ h p. p.0) (run-Placed D _ _ refl))
            (λ _. >>=-Triple (get_users-Placed D _) (λ seen. created_on-Placed _))))
  ]

  create_body-Placed : Holds Placed (create_body D d r)
  unfolding create_body
  create_body-Placed = >>=-Triple (connect-Placed D _ _ _) (λ _.
      >>=-Triple (run-Placed D _ _ refl) (λ _. >>=-Triple (listed-Triple D) create_user-Placed))

  or_queue_create-Placed :
      (o : Option (Result AccountError AccountReply) × Hw D)
      → Post (λ _ h. Placed h) Placed o
      → Placed (or_queue_create D d r o).1
  or_queue_create-Placed (some reply, h) p = p
  or_queue_create-Placed (none, h) p = p

  create_run-is_placed : (h : Hw D) → is_placed (create_run D d r h).1.log ≡ true
  unfolding create_run is_placed
  create_run-is_placed h =
      rw close-is_placed (or_queue_create-Placed _ (create_body-Placed.post _ refl))

create_device_user_real-is_placed :
    (D : Driver) (has_pyzk : Bool) (registry : Dict DeviceInfo) (r : CreateRequest) (h : Hw D)
    → is_placed (create_device_user_real D has_pyzk registry r h).1.log ≡ true
unfolding create_device_user_real is_placed
create_device_user_real-is_placed D has_pyzk registry r h =
    elim (Bool-cases (is_empty (strip r.user_id) || is_empty (strip r.name))) [
      | inl t ↦ rw t refl
      | inr f ↦ rw f (elim (Bool-cases (ltb 24 (length (strip r.user_id)))) [
        | inl t ↦ rw t refl
        | inr f ↦ rw f (elim (Bool-cases has_pyzk) [
          | inl t ↦ rw t (create_run-is_placed D _ r h)
          | inr f ↦ rw f refl
        ])
      ])
    ]

-- Whatever the readers answer, the real migration and the creation of a user write users on the
-- target reader only, and by what that reader listed last before, either nobody there has the PIN
-- and nobody the uid that are written, or the first user there with the PIN has the same uid, and
-- has no name or the same name but for case and surrounding blanks; and they save templates on the
-- target reader only, under the uid and the PIN of the user that was written there last before.
pub real_writes-is_placed :
    (D : Driver) (has_pyzk : Bool) (registry : Dict DeviceInfo) (source_port target_port : ℕ)
    (m : MigrateRequest) (r : CreateRequest) (h : Hw D)
    → (is_placed (migrate_single_user_real D has_pyzk registry source_port target_port m h).1.log
        ≡ true)
      × (is_placed (create_device_user_real D has_pyzk registry r h).1.log ≡ true)
real_writes-is_placed D has_pyzk registry source_port target_port m r h = (
  migrate_single_user_real-is_placed D has_pyzk registry source_port target_port m h,
  create_device_user_real-is_placed D has_pyzk registry r h,
)
