-- ===== src/Iclock/Background.antt =====
-- `auto_sync_device_users_bg`: the reading of the names of users from a reader in the background. Times
-- are ticks of `time.time()`, with `second` of them in a second; `busy` says that another thread holds
-- `_DEVICE_TCP_LOCK`.
use pumo_bio_metric.Prelude.{
  ℕ, ◌+◌, ◌*◌, ◌<◌, ◌≡◌, refl, Bool, true, false, not, ◌||◌, List, [], ◌∷◌, ltb, if◌then◌else◌,
  Option, none, some, arith, Bool-cases, inl, inr,
}
use pumo_bio_metric.Text.{Text, codes, same, is_empty}
use pumo_bio_metric.Dict
use pumo_bio_metric.Dict.{Dict, get-put_self}
use pumo_bio_metric.Device.{DeviceInfo}
use pumo_bio_metric.Commands.{queue_device_cmd}
use pumo_bio_metric.Hardware.{HwUser, target, Driver, Hw, M, ◌>>◌, connect, get_users}
use pumo_bio_metric.Hardware.Inventory.{hang_up, or_none_at_all}
use pumo_bio_metric.Iclock.{Iclock, Outside}
use pumo_bio_metric.Iclock.Direct.{discover}

-- `_LAST_USER_SYNC`, the users and punches, and the readers with the queue of commands.
pub record Background (D : Driver) : Type 0 where
  pub last_user_sync : Dict ℕ
  pub iclock : Iclock
  pub hw : Hw D

-- `_LAST_USER_SYNC.get(sn, 0)`
abbrev pub last_or_zero : Option ℕ → ℕ
last_or_zero none = 0
last_or_zero (some t) = t

-- `now - last < 15`
unfoldable pub is_too_soon : ℕ → Text → ℕ → Dict ℕ → Bool
is_too_soon second sn now last = ltb now (last_or_zero (Dict.get last sn) + 15 * second)

abbrev pub registered_ip : Option DeviceInfo → Text
registered_ip none = []
registered_ip (some info) = info.ip

-- `target_ip`
unfoldable pub address : Option Text → Option DeviceInfo → Text
address none info = registered_ip info
address (some ip) info =
    if is_empty ip || (same ip (codes "127.0.0.1") || same ip (codes "unknown"))
    then registered_ip info
    else ip

put-is_too_soon :
    (second : ℕ) (sn : Text) (now later : ℕ) (last : Dict ℕ)
    → later < now + 15 * second
    → is_too_soon second sn later (Dict.put last sn now) ≡ true
unfolding is_too_soon
put-is_too_soon second sn now later last h = rw (get-put_self last sn now) (ground (arith, h))

module _ (D : Driver) where
  -- `_pull`
  unfoldable pub pull_body : Text → M D (List HwUser)
  pull_body ip = connect D target ip 4370 >> get_users D target

  unfoldable pub pull : Bool → Text → Hw D → List HwUser × Hw D
  unfolding pull_body hang_up
  pull busy ip h =
      let (o, h') = pull_body ip (record h { log = [] }) in
      if busy then ([], record h { log = [] }) else (or_none_at_all o, (hang_up D h').1)

  -- What follows the reading: the names are taken over, or the reader is asked to send its users.
  unfoldable pub after_pull : Outside → Text → List HwUser × Hw D → Background D → Background D
  after_pull out sn ([], h) s = record s {
    hw = record h { commands = (queue_device_cmd sn (codes "DATA QUERY USERINFO") h.commands).1 };
  }
  after_pull out sn (u ∷ us, h) s = record s { iclock = (discover out (u ∷ us) s.iclock).1; hw = h }

  -- `auto_sync_device_users_bg`
  unfoldable pub auto_sync :
      Outside
      → Dict DeviceInfo
      → ℕ
      → Bool
      → Bool
      → Text
      → Option Text
      → ℕ
      → Background D
      → Background D
  auto_sync out registry second has_pyzk busy sn client_ip now s =
      let ip = address client_ip (Dict.get registry sn) in
      let s' = record s { last_user_sync = Dict.put s.last_user_sync sn now } in
      if is_too_soon second sn now s.last_user_sync
      then s
      else if is_empty ip || not has_pyzk
      then s'
      else after_pull out sn (pull busy ip s.hw) s'

  after_pull-last :
      (out : Outside) (sn : Text) (r : List HwUser × Hw D) (s : Background D)
      → (after_pull out sn r s).last_user_sync ≡ s.last_user_sync
  unfolding after_pull
  after_pull-last out sn ([], h) s = refl
  after_pull-last out sn (u ∷ us, h) s = refl

  auto_sync-last :
      (out : Outside) (registry : Dict DeviceInfo) (second : ℕ) (has_pyzk busy : Bool) (sn : Text)
      (client_ip : Option Text) (now : ℕ) (s : Background D)
      → is_too_soon second sn now s.last_user_sync ≡ false
      → (auto_sync out registry second has_pyzk busy sn client_ip now s).last_user_sync
        ≡ Dict.put s.last_user_sync sn now
  unfolding auto_sync
  auto_sync-last out registry second has_pyzk busy sn client_ip now s h =
      elim (Bool-cases (is_empty (address client_ip (Dict.get registry sn)) || not has_pyzk)) [
        | inl t ↦ rw (h, t) refl
        | inr f ↦ rw (h, f) (after_pull-last out sn _ _)
      ]

  auto_sync-too_soon :
      (out : Outside) (registry : Dict DeviceInfo) (second : ℕ) (has_pyzk busy : Bool) (sn : Text)
      (client_ip : Option Text) (now : ℕ) (s : Background D)
      → is_too_soon second sn now s.last_user_sync ≡ true
      → auto_sync out registry second has_pyzk busy sn client_ip now s ≡ s
  unfolding auto_sync
  auto_sync-too_soon out registry second has_pyzk busy sn client_ip now s h = rw h refl

  -- Once a reader was due, any further call for it within 15 seconds does nothing at all, whatever address it
  -- comes from: the reader is contacted, and a command is queued for it, at most once in that time.
  pub auto_sync-once :
      (out : Outside) (registry : Dict DeviceInfo) (second : ℕ) (has_pyzk busy busy' : Bool)
      (sn : Text) (client_ip other_ip : Option Text) (now later : ℕ) (s : Background D)
      → is_too_soon second sn now s.last_user_sync ≡ false
      → later < now + 15 * second
      → let s' = auto_sync out registry second has_pyzk busy sn client_ip now s in
        auto_sync out registry second has_pyzk busy' sn other_ip later s' ≡ s'
  auto_sync-once out registry second has_pyzk busy busy' sn client_ip other_ip now later s h soon =
      auto_sync-too_soon out registry second has_pyzk busy' sn other_ip later _ (
        rw (auto_sync-last out registry second has_pyzk busy sn client_ip now s h)
          (put-is_too_soon second sn now later s.last_user_sync soon))
