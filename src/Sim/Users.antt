-- ===== src/Sim/Users.antt =====
-- `create_device_user` and the deletions, on a simulated reader.
use pumo_bio_metric.Prelude.{
  ◌+◌, ◌≤◌, ◌≡◌, refl, Bool, false, ap, ◌&&◌, List, [], ◌∷◌, ◌++◌, arith, if◌then◌else◌, Option,
  none, some, any, find?, length, Bool-cases, Option-cases, inl, inr, ok, err,
}
use pumo_bio_metric.Text.{Text, same, same_iff, strip, is_empty}
use pumo_bio_metric.Dict.{Dict}
use pumo_bio_metric.Device.{DeviceInfo, SimRef, sim_source, sim_target, resolve_device}
use pumo_bio_metric.Sim.{
  SimUser, SimState, SimError, users_of, set_users, has_pin, has_uid, max_uid, sim_device,
  override_ip, CreateRequest, create_on, new_user, add_user, create_device_user_simulated,
}
use pumo_bio_metric.Sim.State.{
  same_ref, IsWellFormed, IsWellFormed-users_of, set_users-IsWellFormed, max_uid-fresh,
  append-AreDistinct,
}

-- What a client of a reader looks up: the user of a PIN.
abbrev pub user_at : SimRef → Text → SimState → Option SimUser
user_at dev pin s = find? (has_pin pin) (users_of dev s)

-- The reader that a request to create a user names.
abbrev pub create_device : Dict DeviceInfo → CreateRequest → Option SimRef
create_device registry r =
    sim_device (override_ip r.ip_override (resolve_device registry r.port r.device_id))

find?-any-false : (p : SimUser → Bool) (us : List SimUser) → any p us ≡ false → find? p us ≡ none
unfolding any find?
find?-any-false p [] h = refl
find?-any-false p (u ∷ us) h = ground (arith, find?-any-false p us)

pub any-false-find? :
    (p : SimUser → Bool) (us : List SimUser) → find? p us ≡ none → any p us ≡ false
unfolding any find?
any-false-find? p [] h = refl
any-false-find? p (u ∷ us) h = ground (arith, any-false-find? p us)

pub find?-add :
    (us : List SimUser) (v : SimUser) (q : Text)
    → find? (has_pin v.user_id) us ≡ none
    → find? (has_pin q) (us ++ v ∷ []) ≡ (if same v.user_id q then some v else find? (has_pin q) us)
unfolding find?
find?-add [] v q h = refl
find?-add (u ∷ us) v q h = ground (
  arith,
  find?-add us v q,
  same_iff v.user_id q,
  same_iff u.user_id q,
  same_iff u.user_id v.user_id,
)

-- A user appended to a reader's list is what its PIN finds there, and nothing else changes.
pub user_at-append :
    (dev a : SimRef) (v : SimUser) (q : Text) (s : SimState)
    → user_at dev v.user_id s ≡ none
    → user_at a q (set_users dev (users_of dev s ++ v ∷ []) s)
      ≡ (if same_ref dev a && same v.user_id q then some v else user_at a q s)
user_at-append sim_source sim_source v q s h = find?-add s.source_users v q h
user_at-append sim_source sim_target v q s h = refl
user_at-append sim_target sim_source v q s h = refl
user_at-append sim_target sim_target v q s h = find?-add s.target_users v q h

module _ (r : CreateRequest) (dev : SimRef) (u : SimUser) (s s' : SimState) where
  add_user-ok :
      add_user r dev s ≡ (ok u, s')
      → (u ≡ new_user r (max_uid (users_of dev s) + 1))
        × (user_at dev (strip r.user_id) s ≡ none)
        × (s' ≡ set_users dev (users_of dev s ++ u ∷ []) s)
  add_user-ok h = elim (Bool-cases (any (has_pin (strip r.user_id)) (users_of dev s))) [
    | inl old ↦ absurd (ground (arith, h, old))
    | inr new ↦ (
      ground (arith, h, new),
      find?-any-false (has_pin (strip r.user_id)) (users_of dev s) new,
      ground (arith, h, new),
    )
  ]

  add_user-user_at :
      (a : SimRef) (q : Text)
      → add_user r dev s ≡ (ok u, s')
      → (user_at dev (strip r.user_id) s ≡ none)
        × (any (has_uid u.uid) (users_of dev s) ≡ false)
        × (user_at a q s'
            ≡ (if same_ref dev a && same (strip r.user_id) q then some u else user_at a q s))
  add_user-user_at a q h =
      let (e, old, e') = add_user-ok h in
      let f : u.user_id ≡ strip r.user_id = ap (λ (v : SimUser). v.user_id) e in
      (
        old,
        rw e (max_uid-fresh (users_of dev s)),
        rw (e', ← f) (user_at-append dev a u q s (rw f old)),
      )

-- The branches of a request that succeeds.
create_device_user-ok :
    (registry : Dict DeviceInfo) (r : CreateRequest) (u : SimUser) (s s' : SimState)
    → create_device_user_simulated registry r s ≡ (ok u, s')
    → (dev : SimRef) × (create_device registry r ≡ some dev)
      × (is_empty (strip r.user_id) ≡ false)
      × (length (strip r.user_id) ≤ 24)
      × (add_user r dev s ≡ (ok u, s'))
unfolding create_device_user_simulated
create_device_user-ok registry r u s s' h = elim (Option-cases (create_device registry r)) [
  | inl e ↦ absurd (ground (arith, h, e))
  | inr (dev, e) ↦ (dev, e, ground (arith, h, e), ground (arith, h, e), ground (arith, h, e))
]

-- A request that succeeds leaves a user under the PIN that it asks for, where there was none; the
-- user's uid was in use by nobody on that reader, the PIN has 1 to 24 characters, and no other PIN of any reader finds anything
-- else than before.
pub create_device_user-user_at :
    (registry : Dict DeviceInfo) (r : CreateRequest) (u : SimUser) (s s' : SimState) (a : SimRef)
    (q : Text)
    → create_device_user_simulated registry r s ≡ (ok u, s')
    → (dev : SimRef) × (create_device registry r ≡ some dev)
      × (is_empty (strip r.user_id) ≡ false)
      × (length (strip r.user_id) ≤ 24)
      × (user_at dev (strip r.user_id) s ≡ none)
      × (any (has_uid u.uid) (users_of dev s) ≡ false)
      × (user_at a q s'
          ≡ (if same_ref dev a && same (strip r.user_id) q then some u else user_at a q s))
create_device_user-user_at registry r u s s' a q h =
    let (dev, e, given, short, added) = create_device_user-ok registry r u s s' h in
    let (old, fresh, found) = add_user-user_at r dev u s s' a q added in
    (dev, e, given, short, old, fresh, found)

add_user-IsWellFormed :
    (r : CreateRequest) (dev : SimRef) (s : SimState)
    → IsWellFormed s
    → IsWellFormed (add_user r dev s).1
add_user-IsWellFormed r dev s w =
    elim (Bool-cases (any (has_pin (strip r.user_id)) (users_of dev s))) [
      | inl old ↦ rw old w
      | inr new ↦ rw new (
          set_users-IsWellFormed dev _
            (append-AreDistinct (users_of dev s) (new_user r (max_uid (users_of dev s) + 1)) new
              (max_uid-fresh (users_of dev s)) (IsWellFormed-users_of dev w))
            w)
    ]

create_on-IsWellFormed :
    (o : Option SimRef) (r : CreateRequest) (s : SimState)
    → IsWellFormed s
    → IsWellFormed (create_on o r s).1
unfolding create_on
create_on-IsWellFormed none r s w = w
create_on-IsWellFormed (some dev) r s w = add_user-IsWellFormed r dev s w

-- Creating a user keeps PINs and uids distinct on every reader, whether it succeeds or fails.
pub create_device_user-IsWellFormed :
    (registry : Dict DeviceInfo) (r : CreateRequest) (s : SimState)
    → IsWellFormed s
    → IsWellFormed (create_device_user_simulated registry r s).1
unfolding create_device_user_simulated
create_device_user-IsWellFormed registry r s w =
    ground (arith, create_on-IsWellFormed (create_device registry r) r s w)

-- A request that is refused changes no reader.
pub create_device_user-err :
    (registry : Dict DeviceInfo) (r : CreateRequest) (e : SimError) (s s' : SimState)
    → create_device_user_simulated registry r s ≡ (err e, s')
    → s' ≡ s
unfolding create_device_user_simulated
create_device_user-err registry r e s s' h = ground (arith, Option-cases (create_device registry r))
