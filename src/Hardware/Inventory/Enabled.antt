-- ===== src/Hardware/Inventory/Enabled.antt =====
-- Whether a listing or a probe of a hardware reader leaves it enabled and its connection closed.
use pumo_bio_metric.Prelude.{
  ℕ, ◌≡◌, refl, ◌∙◌, Bool, true, false, List, [], ◌∷◌, Option, none, some, Result, ok, err, arith,
  Bool-cases, inl, inr,
}
use pumo_bio_metric.Text.{Text}
use pumo_bio_metric.Dict.{Dict}
use pumo_bio_metric.Device.{DeviceInfo, Resolved, resolve_device}
use pumo_bio_metric.Hardware.{
  target, disable, enable, Driver, Event, ran, Hw, M, ◌>>=◌, continue, pure, attempt, connect, run,
  get_users, is_open,
}
use pumo_bio_metric.Hardware.Inventory.{
  Specs, InventoryError, connection_failed, or_failed, hang_up, guarded, probe_body, fetch_body,
  probe_real, fetch_real,
}

-- Whether the last of the two commands that the reader got was to disable itself.
unfoldable pub is_disabled : List Event → Bool
is_disabled [] = false
is_disabled (ran target disable ∷ log) = true
is_disabled (ran target enable ∷ log) = false
is_disabled (_ ∷ log) = is_disabled log

-- A run that does not raise leaves the reader enabled.
pub record Enables {D : Driver} {A : Type 0} (m : M D A) : Type 0 where
  pub enabled : (h : Hw D) (a : A) → (m h).0 ≡ some a → is_disabled (m h).1.log ≡ false

module _ {D : Driver} where
  continue-enabled :
      {A B : Type 0} (o : Option A × Hw D) (f : A → M D B) (b : B)
      → ((a : A) → Enables (f a))
      → (continue o f).0 ≡ some b
      → is_disabled (continue o f).1.log ≡ false
  continue-enabled (none, h) f b k e = absurd (ground (arith, e))
  continue-enabled (some a, h) f b k e = (k a).enabled h b e

  >>=-Enables :
      {A B : Type 0} (m : M D A) {f : A → M D B} → ((a : A) → Enables (f a)) → Enables (m >>= f)
  unfolding ◌>>=◌
  >>=-Enables m {f} k = record { enabled = λ h b e. continue-enabled (m h) f b k e }

  enable-Enables : {A : Type 0} (a : A) → Enables (run D target enable >>= λ _. pure a)
  unfolding ◌>>=◌ run pure is_disabled
  enable-Enables a = record {
    enabled = λ h b e. elim (Bool-cases (D.command target enable h.world).0) [
      | inl t ↦ rw t refl
      | inr f ↦ rw f refl
    ];
  }

  probe-Enables : (S : Specs D) (d : Resolved) → Enables (probe_body D S d)
  unfolding probe_body
  probe-Enables S d = >>=-Enables _ (λ _. >>=-Enables _ (λ _. >>=-Enables _ (λ _.
      >>=-Enables _ (λ _.
        >>=-Enables _
          (λ _. >>=-Enables _ (λ _. >>=-Enables _ (λ _. >>=-Enables _ (λ _. enable-Enables _))))))))

  fetch-Enables : (names : Dict Text) (d : Resolved) → Enables (fetch_body D names d)
  unfolding fetch_body
  fetch-Enables names d = >>=-Enables _ (λ _.
      >>=-Enables _
        (λ _. >>=-Enables _ (λ _. >>=-Enables _ (λ _. >>=-Enables _ (λ _. enable-Enables _)))))

  hang_up-closed :
      (h : Hw D)
      → (is_open target (hang_up D h).1.log ≡ false)
        × (is_disabled (hang_up D h).1.log ≡ is_disabled h.log)
  unfolding hang_up ◌>>=◌ attempt run pure is_open is_disabled
  hang_up-closed h = elim (Bool-cases (is_open target h.log)) [
    | inl t ↦ rw t (refl, refl)
    | inr f ↦ rw f (f, refl)
  ]

  -- The connection is closed, and an answer means that the reader is enabled.
  abbrev pub IsLeftWell : {A : Type 0} → Result InventoryError A × Hw D → Type 0
  IsLeftWell (err e, h) = is_open target h.log ≡ false
  IsLeftWell (ok a, h) = (is_open target h.log ≡ false) × (is_disabled h.log ≡ false)

  result-IsLeftWell :
      {A : Type 0} (r : Option A × Hw D)
      → ((a : A) → r.0 ≡ some a → is_disabled r.1.log ≡ false)
      → IsLeftWell (or_failed r.0, (hang_up D r.1).1)
  result-IsLeftWell (none, h) k = (hang_up-closed h).0
  result-IsLeftWell (some a, h) k = let (shut, same) = hang_up-closed h in (shut, same ∙ k a refl)

  guarded-IsLeftWell :
      {A : Type 0} (has_pyzk : Bool) (m : M D A) (h : Hw D)
      → Enables m
      → IsLeftWell (guarded D has_pyzk m h)
  unfolding guarded is_open
  guarded-IsLeftWell false m h k = refl
  guarded-IsLeftWell true m h k = result-IsLeftWell _ (k.enabled (record h { log = [] }))

  -- Whatever the reader answers and whichever call raises, a probe and a listing of a hardware reader close the
  -- connection that they open, and where they answer they leave the reader enabled.
  pub inventory-IsLeftWell :
      (S : Specs D) (names : Dict Text) (has_pyzk : Bool) (registry : Dict DeviceInfo)
      (device_id : Text) (port : ℕ) (h : Hw D)
      → IsLeftWell (probe_real D S has_pyzk registry device_id port h)
        × IsLeftWell (fetch_real D names has_pyzk registry device_id port h)
  unfolding probe_real fetch_real
  inventory-IsLeftWell S names has_pyzk registry device_id port h = (
    guarded-IsLeftWell has_pyzk _ h (probe-Enables S _),
    guarded-IsLeftWell has_pyzk _ h (fetch-Enables names _),
  )

  -- A reader that is connected and disabled, and whose list of users cannot be read, is left disabled: nothing
  -- enables it again.
  pub fetch_real-stays_disabled :
      (names : Dict Text) (registry : Dict DeviceInfo) (device_id : Text) (port : ℕ) (h : Hw D)
      (w w' w'' : D.World)
      → D.connect target
          (resolve_device registry port device_id).ip
          (resolve_device registry port device_id).port
          h.world
        ≡ (true, w)
      → D.command target disable w ≡ (true, w')
      → D.get_users target w' ≡ (none, w'')
      → ((fetch_real D names true registry device_id port h).0 ≡ err connection_failed)
        × (is_disabled (fetch_real D names true registry device_id port h).1.log ≡ true)
  unfolding fetch_real guarded fetch_body ◌>>=◌ connect run get_users is_disabled hang_up attempt
      pure is_open
  fetch_real-stays_disabled names registry device_id port h w w' w'' c d g =
      rw (c, d, g) (refl, refl)
