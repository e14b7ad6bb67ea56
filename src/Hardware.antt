-- ===== src/Hardware.antt =====
-- The calls of core/device_migration.py to a reader through the package pyzk. The package with the
-- readers behind it is an interface; a Python exception is `none`, and the state that a call leaves
-- stays. Each call that reaches a reader is noted in a log, the newest first, whether it raises or
-- not.
pub mod Accounts
pub mod Batch
pub mod Migrate
pub mod Keeps
pub mod Closed
pub mod Triples
pub mod Verified
pub mod Settled
pub mod Pins
pub mod Places
pub mod Remaining
pub mod Fallback
pub mod Inventory
use pumo_bio_metric.Prelude.{
  ℕ, ◌≡◌, Bool, true, false, not, ◌&&◌, ◌||◌, List, [], ◌∷◌, if◌then◌else◌, Option, none, some, any,
}
use pumo_bio_metric.Text.{Text, same}
use pumo_bio_metric.Sim.{Finger}
use pumo_bio_metric.Commands.{Commands}

-- A user as `get_users` lists it and as `set_user` takes it.
pub record HwUser : Type 0 where
  pub uid : ℕ
  pub user_id : Text
  pub name : Text
  pub privilege : ℕ
  pub password : Text
  pub group_id : Text
  pub card : ℕ

-- A fingerprint with the uid of its user.
pub record Template : Type 0 where
  pub uid : ℕ
  pub finger : Finger

-- The two connections that a function may hold, `src_conn` and `tgt_conn`; the functions for one
-- reader hold the second one only.
pub data End : Type 0 where
  source target : End

abbrev pub same_end : End → End → Bool
same_end source source = true
same_end target target = true
same_end _ _ = false

-- The calls that answer nothing.
pub data Command : Type 0 where
  disable enable refresh read_version disconnect : Command
  set_user : HwUser → Command
  save_templates : HwUser → List Finger → Command
  delete_user : ℕ → Text → Command

-- pyzk and the readers. `connect` and `command` answer whether they did not raise.
pub record Driver : Type 1 where
  pub World : Type 0
  pub connect : End → Text → ℕ → World → Bool × World
  pub command : End → Command → World → Bool × World
  pub get_users : End → World → Option (List HwUser) × World
  pub get_templates : End → World → Option (List Template) × World
  -- by uid, finger and PIN; `some none` where there is no such template
  pub get_user_template : End → ℕ → ℕ → Text → World → Option (Option Finger) × World
  -- `delete_user_template` by uid and finger, and the raw command 134 by PIN and finger
  pub delete_template : End → ℕ → ℕ → Text → World → Option Bool × World
  pub send_delete : End → Text → ℕ → World → Option Bool × World

pub data Event : Type 0 where
  connected : End → Event
  ran : End → Command → Event
  listed : End → List HwUser → Event
  -- `_remove_user_metadata`, and the entries that `create_device_user` makes, by reader and PIN
  forgot remembered : Text → Text → Event

pub record Hw (D : Driver) : Type 0 where
  pub world : D.World
  pub log : List Event
  pub commands : Commands

abbrev pub M : Driver → Type 0 → Type 0
M D A = Hw D → Option A × Hw D

abbrev pub continue : {D : Driver} {A B : Type 0} → Option A × Hw D → (A → M D B) → Option B × Hw D
continue (none, h) f = (none, h)
continue (some a, h) f = f a h

infixl 5 ◌>>=◌ ◌>>◌
unfoldable pub ◌>>=◌ : {D : Driver} {A B : Type 0} → M D A → (A → M D B) → M D B
(m >>= f) h = continue (m h) f

abbrev pub ◌>>◌ : {D : Driver} {A B : Type 0} → M D A → M D B → M D B
m >> k = m >>= λ _. k

unfoldable pub pure : {D : Driver} {A : Type 0} → A → M D A
pure a h = (some a, h)

unfoldable pub raise : {D : Driver} {A : Type 0} → M D A
raise h = (none, h)

-- `try: m except Exception: ...`
unfoldable pub attempt : {D : Driver} {A : Type 0} → M D A → M D (Option A)
attempt m h = let (o, h') = m h in (some o, h')

unfoldable pub note : {D : Driver} → Event → M D (Unit {0})
note e h = (some tt, record h { log = e ∷ h.log })

abbrev answer : Bool → Option (Unit {0})
answer true = some tt
answer false = none

-- Whether a connection of the run is still to be closed: it was made, and nobody has called
-- `disconnect` on it since, whether that call raised or not.
unfoldable pub is_open : End → List Event → Bool
is_open e [] = false
is_open e (connected e' ∷ log) = same_end e e' || is_open e log
is_open e (ran e' disconnect ∷ log) = let rest = is_open e log in not (same_end e e') && rest
is_open e (_ ∷ log) = is_open e log

abbrev pub noted : End → Option (List HwUser) → List Event → List Event
noted e none log = log
noted e (some users) log = listed e users ∷ log

module _ (D : Driver) where
  -- `connect_zk_device`
  unfoldable pub connect : End → Text → ℕ → M D (Unit {0})
  connect e ip port h =
      let (done, w) = D.connect e ip port h.world in
      (answer done, record h { world = w; log = if done then connected e ∷ h.log else h.log })

  unfoldable pub run : End → Command → M D (Unit {0})
  run e c h =
      let (done, w) = D.command e c h.world in
      (answer done, record h { world = w; log = ran e c ∷ h.log })

  unfoldable pub get_users : End → M D (List HwUser)
  get_users e h =
      let (users, w) = D.get_users e h.world in
      (users, record h { world = w; log = noted e users h.log })

  -- A call that changes nothing that the log shows.
  unfoldable pub quietly : {A : Type 0} → (D.World → Option A × D.World) → M D A
  quietly f h = let (o, w) = f h.world in (o, record h { world = w })

  -- `if conn: try: conn.enable_device() ...; try: conn.disconnect() ...`
  unfoldable pub close : End → M D (Unit {0})
  unfolding ◌>>=◌ attempt run pure
  close e h =
      if is_open e h.log
      then (do attempt (run e enable); attempt (run e disconnect); pure tt) h
      else (some tt, h)
