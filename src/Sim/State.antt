-- ===== src/Sim/State.antt =====
-- Reading and writing the two objects of the simulator, and the invariant of a reader's user list.
use pumo_bio_metric.Prelude.{
  ℕ, ◌+◌, ◌<◌, ◌≡◌, refl, Bool, true, false, List, [], ◌∷◌, ◌++◌, arith, if◌then◌else◌, any,
  filter_by, update_first, any-append,
}
use pumo_bio_metric.Text.{same_iff}
use pumo_bio_metric.Device.{SimRef, sim_source, sim_target}
use pumo_bio_metric.Sim.{SimUser, SimState, users_of, set_users, has_pin, has_uid, max_uid}

abbrev pub same_ref : SimRef → SimRef → Bool
same_ref sim_source sim_source = true
same_ref sim_target sim_target = true
same_ref _ _ = false

pub same_ref_refl : (a : SimRef) → same_ref a a ≡ true
same_ref_refl sim_source = refl
same_ref_refl sim_target = refl

-- A write through one name is read through every name of the same object, and no other.
pub users_of-set_users :
    (a b : SimRef) (us : List SimUser) (s : SimState)
    → users_of b (set_users a us s) ≡ (if same_ref a b then us else users_of b s)
users_of-set_users sim_source sim_source us s = refl
users_of-set_users sim_source sim_target us s = refl
users_of-set_users sim_target sim_source us s = refl
users_of-set_users sim_target sim_target us s = refl

-- No two users of the list have one PIN, and no two have one uid.
abbrev pub AreDistinct : List SimUser → Type 0
AreDistinct [] = Unit
AreDistinct (u ∷ us) =
    (any (has_pin u.user_id) us ≡ false) × (any (has_uid u.uid) us ≡ false) × AreDistinct us

pub record IsWellFormed (s : SimState) : Type 0 where
  pub source : AreDistinct s.source_users
  pub target : AreDistinct s.target_users

pub IsWellFormed-users_of :
    (a : SimRef) {s : SimState} → IsWellFormed s → AreDistinct (users_of a s)
IsWellFormed-users_of sim_source w = w.source
IsWellFormed-users_of sim_target w = w.target

pub set_users-IsWellFormed :
    (a : SimRef) (us : List SimUser) {s : SimState}
    → AreDistinct us
    → IsWellFormed s
    → IsWellFormed (set_users a us s)
set_users-IsWellFormed sim_source us d w = record { source = d; target = w.target }
set_users-IsWellFormed sim_target us d w = record { source = w.source; target = d }

max_uid-bound : (n : ℕ) (us : List SimUser) → max_uid us < n → any (has_uid n) us ≡ false
unfolding max_uid any
max_uid-bound n [] h = refl
max_uid-bound n (u ∷ us) h = ground (arith, max_uid-bound n us)

-- The uid that a new user gets is in use by nobody.
pub max_uid-fresh : (us : List SimUser) → any (has_uid (max_uid us + 1)) us ≡ false
max_uid-fresh us = max_uid-bound (max_uid us + 1) us (omega arith)

has_pin_comm : (u v : SimUser) → has_pin u.user_id v ≡ has_pin v.user_id u
has_pin_comm u v = ground (arith, same_iff u.user_id v.user_id, same_iff v.user_id u.user_id)

pub append-AreDistinct :
    (us : List SimUser) (v : SimUser)
    → any (has_pin v.user_id) us ≡ false
    → any (has_uid v.uid) us ≡ false
    → AreDistinct us
    → AreDistinct (us ++ v ∷ [])
unfolding any
append-AreDistinct [] v p q d = (refl, refl, tt)
append-AreDistinct (u ∷ us) v p q d = ground (
  arith,
  append-AreDistinct us v,
  has_pin_comm u v,
  any-append (has_pin u.user_id) us (v ∷ []),
  any-append (has_uid u.uid) us (v ∷ []),
)

any-filter_by :
    (p q : SimUser → Bool) (us : List SimUser) → any p us ≡ false → any p (filter_by q us) ≡ false
unfolding any filter_by
any-filter_by p q [] h = refl
any-filter_by p q (u ∷ us) h = ground (arith, any-filter_by p q us)

pub filter_by-AreDistinct :
    (q : SimUser → Bool) (us : List SimUser) → AreDistinct us → AreDistinct (filter_by q us)
unfolding filter_by
filter_by-AreDistinct q [] d = d
filter_by-AreDistinct q (u ∷ us) d = ground (
  arith,
  filter_by-AreDistinct q us,
  any-filter_by (has_pin u.user_id) q us,
  any-filter_by (has_uid u.uid) q us,
)

any-update_first :
    (p q : SimUser → Bool) (f : SimUser → SimUser) (us : List SimUser)
    → ((u : SimUser) → p (f u) ≡ p u)
    → any p (update_first q f us) ≡ any p us
unfolding any update_first
any-update_first p q f [] h = refl
any-update_first p q f (u ∷ us) h = ground (arith, any-update_first p q f us h, h u)

-- A change that keeps PIN and uid keeps the list distinct.
pub update_first-AreDistinct :
    (q : SimUser → Bool) (f : SimUser → SimUser) (us : List SimUser)
    → ((u : SimUser) → ((f u).user_id ≡ u.user_id) × ((f u).uid ≡ u.uid))
    → AreDistinct us
    → AreDistinct (update_first q f us)
unfolding update_first
update_first-AreDistinct q f [] h d = d
update_first-AreDistinct q f (u ∷ us) h d = ground (
  arith,
  update_first-AreDistinct q f us h,
  h u,
  any-update_first (has_pin u.user_id) q f us (λ v. rw ((h v).0)),
  any-update_first (has_uid u.uid) q f us (λ v. rw ((h v).1)),
)
