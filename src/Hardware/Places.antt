-- ===== src/Hardware/Places.antt =====
-- Where the functions for hardware readers write users.
pub mod Created
pub mod Moved
use pumo_bio_metric.Prelude.{
  ℕ, ◌+◌, ◌≤◌, ◌<◌, ◌==◌, ◌≡◌, refl, sym, ◌∙◌, ap, Bool, true, false, not, ◌&&◌, ◌||◌, List, [],
  ◌∷◌, map, any, find?, if◌then◌else◌, Option, none, some, Result, ok, err, arith, Bool-cases, inl,
  inr, ltb, length,
}
use Prim.Native.Nat.{max}
use pumo_bio_metric.Text.{Text, same, same_iff, strip, is_empty}
use pumo_bio_metric.Text.Numbers.{ℤ, pos}
use pumo_bio_metric.Dict.{Dict}
use pumo_bio_metric.Pin.{contains, free_number, mapped_pin}
use pumo_bio_metric.Pin.Laws.{free_number-least, mapped_pin-free}
use pumo_bio_metric.Device.{DeviceInfo, Resolved, resolve_device}
use pumo_bio_metric.Migration.{MigrateRequest, MigrationResult, is_move, wanted_pin}
use pumo_bio_metric.Sim.{CreateRequest, Finger, override_ip}
use pumo_bio_metric.Hardware.{
  HwUser, End, source, target, same_end, Command, set_user, disable, enable, refresh, read_version,
  disconnect, save_templates, delete_user, Driver, Event, ran, connected, Hw, M, ◌>>=◌, ◌>>◌, pure,
  raise, note, attempt, run, connect, get_users, quietly, close, is_open,
}
use pumo_bio_metric.Hardware.Triples.{
  Post, Triple, Holds, >>=-Triple, pure-Triple, raise-Triple, note-Triple, attempt-Holds,
  run-Triple, run-Holds, get_users-Triple, quietly-Holds, connect-Holds, weaken,
}
use pumo_bio_metric.Hardware.Settled.{latest}
use pumo_bio_metric.Hardware.Migrate.{
  user_has, name_of, is_other, uids, pins, free_uid, destination_for, destination, profile,
  all_fids, scan_fingers, or_scan, fingers_of, read_fingers, save_fingers, leave_source, verify,
  write, open_target, migrate_user, migrate_body, close_both, migrate_run, migrate_single_user_real,
}

abbrev pub fits_holder : HwUser → List HwUser → Option HwUser → Bool
fits_holder v users none = not (contains (uids users) (pos v.uid))
fits_holder v users (some e) = not (is_other v.name e) && v.uid == e.uid

-- Nobody on the reader has the PIN or the uid of `v`, or whoever has the PIN has the uid as well
-- and no other name.
abbrev pub fits : HwUser → Option (List HwUser) → Bool
fits v none = false
fits v (some users) = fits_holder v users (find? (user_has v.user_id) users)

-- The user written last on the second reader.
unfoldable pub written : List Event → Option HwUser
written [] = none
written (ran target (set_user v) ∷ log) = some v
written (_ ∷ log) = written log

abbrev pub is_record_of : HwUser → Option HwUser → Bool
is_record_of v none = false
is_record_of v (some w) = w.uid == v.uid && same w.user_id v.user_id

-- A user is written on the second reader and fits what that reader listed last before; templates
-- are written there as well, under the uid and the PIN of the user written last before.
abbrev pub placed_by : End → Command → List Event → Bool
placed_by e (set_user v) log = same_end e target && fits v (latest log)
placed_by e (save_templates v fs) log = same_end e target && is_record_of v (written log)
placed_by e _ log = true

unfoldable pub is_placed : List Event → Bool
is_placed [] = true
is_placed (ran e c ∷ log) = placed_by e c log && is_placed log
is_placed (_ ∷ log) = is_placed log

pub find?-pins :
    (pin : Text) (users : List HwUser)
    → any (same pin) (pins users) ≡ false
    → find? (user_has pin) users ≡ none
unfolding any find?
find?-pins pin [] h = refl
find?-pins pin (u ∷ users) h =
    ground (arith, find?-pins pin users, same_iff pin u.user_id, same_iff u.user_id pin)

abbrev pub Placed : {D : Driver} → Hw D → Type 0
Placed h = is_placed h.log ≡ true

-- A command that writes neither a user nor templates.
abbrev is_plain : Command → Bool
is_plain (set_user _) = false
is_plain (save_templates _ _) = false
is_plain _ = true

pub is_placed-ran :
    (e : End) (c : Command) (log : List Event)
    → is_plain c ≡ true
    → is_placed log ≡ true
    → is_placed (ran e c ∷ log) ≡ true
unfolding is_placed
is_placed-ran e (set_user v) log q p = ground arith
is_placed-ran e disable log q p = p
is_placed-ran e enable log q p = p
is_placed-ran e refresh log q p = p
is_placed-ran e read_version log q p = p
is_placed-ran e disconnect log q p = p
is_placed-ran e (save_templates v fs) log q p = ground arith
is_placed-ran e (delete_user uid pin) log q p = p

pub is_placed-connected :
    (e : End) (b : Bool) (log : List Event)
    → is_placed log ≡ true
    → is_placed (if b then connected e ∷ log else log) ≡ true
unfolding is_placed
is_placed-connected e true log p = p
is_placed-connected e false log p = p

module _ (D : Driver) where
  pub run-Placed : (e : End) (c : Command) → is_plain c ≡ true → Holds Placed (run D e c)
  run-Placed e c q = run-Holds e c (λ h w p. is_placed-ran e c h.log q p)

  pub connect-Placed : (e : End) (ip : Text) (port : ℕ) → Holds Placed (connect D e ip port)
  connect-Placed e ip port = connect-Holds e ip port (λ h w b p. is_placed-connected e b h.log p)

  pub get_users-Placed : (e : End) → Holds Placed (get_users D e)
  unfolding is_placed
  get_users-Placed e = get_users-Triple e (λ h w us p. p) (λ h w p. p)

  pub quiet-Placed :
      {A : Type 0} (f : D.World → Option A × D.World) → Holds Placed (attempt (quietly D f))
  quiet-Placed f = attempt-Holds (quietly-Holds f (λ h w p. p))

  pub pure-Placed : {A : Type 0} (a : A) → Holds Placed (pure {D = D} a)
  pure-Placed a = pure-Triple a (λ h p. p)

  -- What is known just after a listing.
  abbrev pub Listed : List HwUser → Hw D → Type 0
  Listed users h = (is_placed h.log ≡ true) × (latest h.log ≡ some users)

  pub listed-Triple : Triple Placed (get_users D target) Listed Placed
  unfolding is_placed latest
  listed-Triple = get_users-Triple target (λ h w us p. (p, refl)) (λ h w p. p)

  -- What is known just after a user is written.
  abbrev pub Written : HwUser → Hw D → Type 0
  Written v h = (is_placed h.log ≡ true) × (written h.log ≡ some v)

  pub set_user-Written :
      (users : List HwUser) (v : HwUser)
      → fits v (some users) ≡ true
      → Triple (Listed users) (run D target (set_user v)) (λ _. Written v) Placed
  unfolding is_placed written
  set_user-Written users v e =
      weaken (λ _ h p. p) (λ h p. p.0)
        (run-Triple {P = Listed users} {Q = Written v} target (set_user v)
          (λ h w (p, l). (rw (l, e, p) refl, refl)))

  pub save_templates-Placed :
      (v : HwUser) (fs : List Finger)
      → Triple (Written v) (run D target (save_templates v fs)) (λ _. Placed) Placed
  unfolding is_placed
  save_templates-Placed v fs =
      run-Triple target (save_templates v fs)
        (λ h w (p, l). rw (l, p) (ground (arith, same_iff v.user_id v.user_id)))

  pub close-is_placed : (e : End) (h : Hw D) → is_placed (close D e h).1.log ≡ is_placed h.log
  unfolding close is_placed ◌>>=◌ attempt run pure
  close-is_placed e h = elim (Bool-cases (is_open e h.log)) [
    | inl t ↦ rw t refl
    | inr f ↦ rw f refl
  ]
