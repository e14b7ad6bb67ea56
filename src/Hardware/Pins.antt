-- ===== src/Hardware/Pins.antt =====
-- `resolve_target_pin` of core/device_migration.py with the listing of the target reader, simulated
-- or hardware, that it decides by.
use pumo_bio_metric.Prelude.{
  ℕ, ◌≡◌, refl, ◌⊎◌, inl, inr, Bool, true, false, not, List, [], ◌∷◌, map, find?, Option, none,
  some, Result, ok, err, arith, Bool-cases,
}
use pumo_bio_metric.Text.{Text, same, strip}
use pumo_bio_metric.Dict.{Dict}
use pumo_bio_metric.Device.{DeviceInfo, SimRef, resolve_device}
use pumo_bio_metric.Sim.{SimState, users_of, sim_device}
use pumo_bio_metric.Sim.Inventory.{Listed}
use pumo_bio_metric.Migration.{
  Existing, PinCheck, same_person, check_holder, resolve_target_pin, to_existing,
  simulated_existing, resolve_target_pin_simulated,
}
use pumo_bio_metric.Migration.Pins.{holds_pin, IsSafePin, resolve_target_pin-safe}
use pumo_bio_metric.Hardware.{Driver, Hw}
use pumo_bio_metric.Hardware.Inventory.{InventoryError, HwFetched, fetch_real}

abbrev pub listed_existing : Listed → Existing
listed_existing u = record { user_id = u.user_id; name = u.name }

-- `existing_users` of a hardware reader: none where the listing failed
unfoldable pub fetched_existing : Result InventoryError HwFetched → List Existing
fetched_existing (ok f) = map listed_existing f.users
fetched_existing (err _) = []

-- `resolve_target_pin(..., simulate=False)`
unfoldable pub resolve_target_pin_real :
    (D : Driver)
    → Dict Text
    → Bool
    → Dict DeviceInfo
    → ℕ
    → Text
    → Text
    → Option Text
    → Hw D
    → PinCheck × Hw D
unfolding resolve_target_pin fetched_existing
resolve_target_pin_real D names has_pyzk registry port target_id preferred user_name h =
    let (reply, h') = fetch_real D names has_pyzk registry target_id port h in
    (
      resolve_target_pin (resolve_device registry port target_id).sn (fetched_existing reply)
          preferred user_name,
      h',
    )

module _ {A : Type 0} (to : A → Existing) where
  -- The first of these users with the PIN, as the reader has them, goes by the user's name, or
  -- there is none.
  abbrev pub IsSafeAmong : List A → Option Text → Text → Type 0
  IsSafeAmong users user_name pin =
      (find? (λ u. holds_pin pin (to u)) users ≡ none)
      ⊎ ((u : A) × (find? (λ u. holds_pin pin (to u)) users ≡ some u)
          × (same_person user_name (to u).name ≡ true))

  safe_first :
      (u : A) (users : List A) (user_name : Option Text) (pin : Text)
      → holds_pin pin (to u) ≡ true
      → IsSafePin (to u ∷ map to users) user_name pin
      → same_person user_name (to u).name ≡ true
  unfolding find?
  safe_first u users user_name pin t (inl n) = absurd (ground (arith, n, t))
  safe_first u users user_name pin t (inr (e, f, p)) = ground (arith, f, t, p)

  safe_rest :
      (u : A) (users : List A) (user_name : Option Text) (pin : Text)
      → holds_pin pin (to u) ≡ false
      → IsSafePin (to u ∷ map to users) user_name pin
      → IsSafePin (map to users) user_name pin
  unfolding find?
  safe_rest u users user_name pin t (inl n) = inl (ground (arith, n, t))
  safe_rest u users user_name pin t (inr (e, f, p)) = inr (e, ground (arith, f, t), p)

  safe_among :
      (users : List A) (user_name : Option Text) (pin : Text)
      → IsSafePin (map to users) user_name pin
      → IsSafeAmong users user_name pin
  unfolding find?
  safe_among [] user_name pin s = inl refl
  safe_among (u ∷ users) user_name pin s = elim (Bool-cases (holds_pin pin (to u))) [
    | inl t ↦ rw t (inr (u, refl, safe_first u users user_name pin t s))
    | inr f ↦ rw f (safe_among users user_name pin (safe_rest u users user_name pin f s))
  ]

-- What the check gives after the listing of a hardware reader.
abbrev pub IsSafeReply : Result InventoryError HwFetched → Text → Option Text → PinCheck → Type 0
IsSafeReply (ok f) preferred user_name c =
    IsSafeAmong listed_existing f.users user_name c.target_pin
    × (same c.target_pin preferred ≡ not c.is_mapped)
IsSafeReply (err _) preferred user_name c = (c.target_pin ≡ preferred) × (c.is_mapped ≡ false)

IsSafeReply-fetched :
    (o : Result InventoryError HwFetched) (device preferred : Text) (user_name : Option Text)
    → IsSafeReply o
        (strip preferred)
        user_name
        (resolve_target_pin device (fetched_existing o) preferred user_name)
unfolding fetched_existing resolve_target_pin check_holder find?
IsSafeReply-fetched (ok f) device preferred user_name =
    let (s, k, m) =
      resolve_target_pin-safe device (map listed_existing f.users) preferred user_name in
    (safe_among listed_existing f.users user_name _ s, m)
IsSafeReply-fetched (err e) device preferred user_name = (refl, refl)

-- The PIN that the check returns. On a simulated reader that the simulator knows: nobody there
-- has it, or the first user there who has it goes by the name of the user that moves in. On a
-- hardware reader the same holds for the users of the listing that the check makes, where that
-- listing succeeds; where it fails, the check returns the preferred PIN, not mapped. Otherwise it
-- differs from the preferred PIN, which is the one asked for without surrounding blanks, exactly
-- when the check says that it is mapped.
pub resolve_target_pin-IsSafe :
    (D : Driver) (names : Dict Text) (has_pyzk : Bool) (registry : Dict DeviceInfo) (port : ℕ)
    (target_id preferred : Text) (user_name : Option Text) (h : Hw D) (s : SimState) (dev : SimRef)
    → sim_device (resolve_device registry 4370 target_id) ≡ some dev
    → let c : PinCheck = resolve_target_pin_simulated registry target_id preferred user_name s in
      IsSafeAmong to_existing (users_of dev s) user_name c.target_pin
      × (same c.target_pin (strip preferred) ≡ not c.is_mapped)
      × IsSafeReply
          (fetch_real D names has_pyzk registry target_id port h).0
          (strip preferred)
          user_name
          (resolve_target_pin_real D names has_pyzk registry port target_id preferred user_name h).0
unfolding resolve_target_pin_simulated simulated_existing resolve_target_pin_real
resolve_target_pin-IsSafe D names has_pyzk registry port target_id preferred user_name h s dev k =
    let (safe, p, m) =
      resolve_target_pin-safe (resolve_device registry 4370 target_id).sn
        (map to_existing (users_of dev s)) preferred user_name in
    rw k (
      safe_among to_existing (users_of dev s) user_name _ safe,
      m,
      IsSafeReply-fetched (fetch_real D names has_pyzk registry target_id port h).0 _ preferred
          user_name,
    )
