-- ===== src/Hardware/Settled.antt =====
-- What a direct reply of the account functions says of the users that the reader lists.
use mathlib.Core.Path.{subst}
use pumo_bio_metric.Prelude.{
  ℕ, ◌≡◌, refl, ◌∙◌, ap, Bool, true, false, not, ◌&&◌, ◌||◌, List, [], ◌∷◌, any, find?, Option,
  none, some, Result, ok, err, arith, Bool-cases, inl, inr, ltb, length,
}
use pumo_bio_metric.Text.{Text, strip, is_empty}
use pumo_bio_metric.Dict.{Dict}
use pumo_bio_metric.Device.{DeviceInfo, Resolved, resolve_device}
use pumo_bio_metric.Sim.{CreateRequest, override_ip}
use pumo_bio_metric.Hardware.{
  HwUser, End, target, is_open, Driver, Event, listed, Hw, ◌>>=◌, attempt, pure, run, close,
}
use pumo_bio_metric.Hardware.Triples.{
  Post, Triple, >>=-Triple, pure-Triple, raise-Triple, note-Triple, run-Holds, get_users-Triple,
  weaken, Anything, anything,
}
use pumo_bio_metric.Hardware.Migrate.{user_has}
use pumo_bio_metric.Hardware.Accounts.{
  AccountReply, AccountError, or_queue_delete, or_queue_create, create_run, create_body,
  create_user, delete_run, delete_found, delete_body, create_device_user_real,
  delete_device_user_real, deleted_on, created_on, delete_profile,
}

-- The users of the last listing that the reader of the second connection gave.
unfoldable pub latest : List Event → Option (List HwUser)
latest [] = none
latest (listed target users ∷ log) = some users
latest (_ ∷ log) = latest log

abbrev pub has_one : Text → Option (List HwUser) → Bool
has_one pin none = false
has_one pin (some users) = any (user_has pin) users

abbrev pub has_none : Text → Option (List HwUser) → Bool
has_none pin none = false
has_none pin (some users) = not (any (user_has pin) users)

-- What closing a connection keeps.
pub close-latest : {D : Driver} (e : End) (h : Hw D) → latest (close D e h).1.log ≡ latest h.log
unfolding close latest ◌>>=◌ attempt run pure
close-latest e h = elim (Bool-cases (is_open e h.log)) [ inl t ↦ rw t refl | inr f ↦ rw f refl ]

abbrev claims_gone : AccountReply → Bool
claims_gone r = r.done && (not r.queued && not r.biometrics_only)

abbrev was_gone : Result AccountError AccountReply → Bool
was_gone (ok r) = claims_gone r
was_gone (err e) = false

claims_gone_lem :
    (r : AccountReply)
    → r.done ≡ true
    → r.queued ≡ false
    → r.biometrics_only ≡ false
    → claims_gone r ≡ true
claims_gone_lem r d q b = rw (d, q, b) refl

module _ (D : Driver) (d : Resolved) (pin : Text) where
  abbrev Gone : AccountReply → Hw D → Type 0
  Gone r h = claims_gone r ≡ true → has_none pin (latest h.log) ≡ true

  abbrev AsLatest : List HwUser → Hw D → Type 0
  AsLatest users h = latest h.log ≡ some users

  deleted_on-Triple :
      (users : List HwUser) (still_there : Bool)
      → any (user_has pin) users ≡ still_there
      → Triple (AsLatest users) (deleted_on D d pin still_there) Gone Anything
  unfolding latest
  deleted_on-Triple users true e = raise-Triple (λ h p. tt)
  deleted_on-Triple users false e = >>=-Triple (note-Triple {Q = AsLatest users} _ (λ h p. p)) (λ _.
      >>=-Triple (weaken (λ _ h p. p) (λ h p. tt) (run-Holds {P = AsLatest users} _ _ (λ h w p. p)))
        (λ _. pure-Triple _ (λ h p _. rw (p, e) refl)))

  delete_profile-Triple : (u : HwUser) → Triple Anything (delete_profile D d pin u) Gone Anything
  unfolding latest
  delete_profile-Triple u = >>=-Triple (anything _) (λ _. >>=-Triple (anything _) (λ _.
      >>=-Triple (get_users-Triple {Q = AsLatest} _ (λ h w users p. refl) (λ h w p. tt))
        (λ users. deleted_on-Triple users _ refl)))

  -- An answer that does not claim that the user is gone.
  claimless-Triple :
      (r : AccountReply) → claims_gone r ≡ false → Triple Anything (pure {D = D} r) Gone Anything
  claimless-Triple r e = pure-Triple r (λ h _ c. ground arith)

  delete_found-Triple :
      (only : Bool) (u : Option HwUser)
      → Triple Anything (delete_found D d pin only u) Gone Anything
  unfolding delete_found
  delete_found-Triple only none =
      >>=-Triple (anything _) (λ _. >>=-Triple (anything _) (λ _. claimless-Triple _ refl))
  delete_found-Triple true (some u) =
      >>=-Triple (anything _)
        (λ _. >>=-Triple (anything _) (λ _. >>=-Triple (anything _) (λ _. claimless-Triple _ refl)))
  delete_found-Triple false (some u) = delete_profile-Triple u

  delete_body-Triple : (only : Bool) → Triple Anything (delete_body D d pin only) Gone Anything
  unfolding delete_body
  delete_body-Triple only = >>=-Triple (anything _) (λ _.
      >>=-Triple (anything _) (λ _. >>=-Triple (anything _) (λ users. delete_found-Triple only _)))

  or_queue_delete-Gone :
      (only : Bool) (o : Option AccountReply × Hw D)
      → Post Gone Anything o
      → Gone (or_queue_delete D d pin only o).0 (or_queue_delete D d pin only o).1
  unfolding or_queue_delete
  or_queue_delete-Gone only (some r, h) g = g
  or_queue_delete-Gone only (none, h) g = λ c. ground arith

  delete_run-Gone :
      (only : Bool) (h : Hw D) → Gone (delete_run D d pin only h).0 (delete_run D d pin only h).1
  unfolding delete_run
  delete_run-Gone only h c = rw close-latest (
      or_queue_delete-Gone only (delete_body D d pin only (record h { log = [] }))
        ((delete_body-Triple only).post _ tt) c)

any-find? :
    {A : Type 0} (p : A → Bool) (xs : List A) (x : A) → find? p xs ≡ some x → any p xs ≡ true
unfolding find? any
any-find? p [] x h = ground arith
any-find? p (y ∷ ys) x h = ground (arith, any-find? p ys x)

module _ (D : Driver) (d : Resolved) (r : CreateRequest) where
  abbrev SeenBy : AccountReply → Hw D → Type 0
  SeenBy a h = a.queued ≡ false → has_one (strip r.user_id) (latest h.log) ≡ true

  abbrev Seen : Result AccountError AccountReply → Hw D → Type 0
  Seen (err e) h = Unit {0}
  Seen (ok a) h = SeenBy a h

  created_on-Triple :
      (users : List HwUser) (o : Option HwUser)
      → find? (user_has (strip r.user_id)) users ≡ o
      → Triple
          (λ (h : Hw D). latest h.log ≡ some users)
          (created_on D d (strip r.user_id) o)
          Seen
          Anything
  unfolding latest
  created_on-Triple users none e = raise-Triple (λ h p. tt)
  created_on-Triple users (some u) e =
      >>=-Triple (note-Triple {Q = λ h. latest h.log ≡ some users} _ (λ h p. p))
        (λ _. pure-Triple _ (λ h p _. rw (p, any-find? _ users u e) refl))

  create_user-Triple :
      (users : List HwUser) → Triple Anything (create_user D d r users) Seen Anything
  unfolding create_user latest
  create_user-Triple users = elim (Bool-cases (any (user_has (strip r.user_id)) users)) [
    | inl t ↦ rw t (pure-Triple _ (λ h p. tt))
    | inr f ↦ rw f (
        >>=-Triple (anything _) (λ _. >>=-Triple (anything _) (λ _.
          >>=-Triple
            (get_users-Triple {Q = λ seen h. latest h.log ≡ some seen} _ (λ h w seen p. refl)
              (λ h w p. tt))
            (λ seen. created_on-Triple seen _ refl))))
  ]

  create_body-Triple : Triple Anything (create_body D d r) Seen Anything
  unfolding create_body
  create_body-Triple =
      >>=-Triple (anything _)
        (λ _. >>=-Triple (anything _) (λ _. >>=-Triple (anything _) create_user-Triple))

  or_queue_create-Seen :
      (o : Option (Result AccountError AccountReply) × Hw D)
      → Post Seen Anything o
      → Seen (or_queue_create D d r o).0 (or_queue_create D d r o).1
  or_queue_create-Seen (some (ok a), h) g = g
  or_queue_create-Seen (some (err e), h) g = tt
  or_queue_create-Seen (none, h) g = λ c. ground arith

  close-Seen :
      (o : Result AccountError AccountReply) (h : Hw D) → Seen o h → Seen o (close D target h).1
  close-Seen (ok a) h s = λ c. rw close-latest (s c)
  close-Seen (err e) h s = tt

  create_run-Seen : (h : Hw D) → Seen (create_run D d r h).0 (create_run D d r h).1
  unfolding create_run
  create_run-Seen h = close-Seen _ _ (
      or_queue_create-Seen (create_body D d r (record h { log = [] }))
        (create_body-Triple.post _ tt))

-- When a deletion of a whole user on a hardware reader reports that it is done and was not queued,
-- the reader gave a list of users in the run, and the last one that it gave has no user with the
-- PIN.
pub delete_device_user_real-gone :
    (D : Driver) (has_pyzk only : Bool) (registry : Dict DeviceInfo) (port : ℕ) (ip : Option Text)
    (device_id pin : Text) (h : Hw D) (r : AccountReply)
    → (delete_device_user_real D has_pyzk registry port ip device_id pin only h).0 ≡ ok r
    → r.done ≡ true
    → r.queued ≡ false
    → r.biometrics_only ≡ false
    → has_none pin
        (latest (delete_device_user_real D has_pyzk registry port ip device_id pin only h).1.log)
      ≡ true
unfolding delete_device_user_real
delete_device_user_real-gone D true only registry port ip device_id pin h r e done queued whole =
    delete_run-Gone D _ pin only h (ap was_gone e ∙ claims_gone_lem r done queued whole)
delete_device_user_real-gone D false only registry port ip device_id pin h r e done queued whole =
    ground arith

create_device_user_real-Seen :
    (D : Driver) (has_pyzk : Bool) (registry : Dict DeviceInfo) (c : CreateRequest) (h : Hw D)
    → Seen D
        (override_ip c.ip_override (resolve_device registry c.port c.device_id))
        c
        (create_device_user_real D has_pyzk registry c h).0
        (create_device_user_real D has_pyzk registry c h).1
unfolding create_device_user_real
create_device_user_real-Seen D has_pyzk registry c h =
    elim (Bool-cases (is_empty (strip c.user_id) || is_empty (strip c.name))) [
      | inl t ↦ rw t tt
      | inr f ↦ rw f (elim (Bool-cases (ltb 24 (length (strip c.user_id)))) [
        | inl t ↦ rw t tt
        | inr f ↦ rw f (elim (Bool-cases has_pyzk) [
          | inl t ↦ rw t (create_run-Seen D _ c h)
          | inr f ↦ rw f tt
        ])
      ])
    ]

-- When a creation on a hardware reader succeeds and was not queued, the last thing that the reader
-- listed has a user with the requested PIN.
pub create_device_user_real-seen :
    (D : Driver) (has_pyzk : Bool) (registry : Dict DeviceInfo) (c : CreateRequest) (h : Hw D)
    (r : AccountReply)
    → (create_device_user_real D has_pyzk registry c h).0 ≡ ok r
    → r.queued ≡ false
    → has_one (strip c.user_id) (latest (create_device_user_real D has_pyzk registry c h).1.log)
      ≡ true
unfolding create_device_user_real
create_device_user_real-seen D has_pyzk registry c h r e queued =
    subst
      (λ o.
        Seen D (override_ip c.ip_override (resolve_device registry c.port c.device_id)) c o
          (create_device_user_real D has_pyzk registry c h).1)
      e (create_device_user_real-Seen D has_pyzk registry c h) queued
