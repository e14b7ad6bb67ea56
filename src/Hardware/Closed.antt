-- ===== src/Hardware/Closed.antt =====
-- The `finally` clauses of migrate_single_user_real, create_device_user, delete_device_user_real and
-- delete_batch_device_users hang up every connection.
use pumo_bio_metric.Prelude.{
  ℕ, ◌≡◌, refl, Bool, true, false, ◌||◌, List, [], ◌∷◌, Option, Bool-cases, inl, inr, ltb, length,
}
use pumo_bio_metric.Text.{Text, strip, is_empty}
use pumo_bio_metric.Dict.{Dict}
use pumo_bio_metric.Device.{DeviceInfo, Resolved}
use pumo_bio_metric.Migration.{MigrateRequest}
use pumo_bio_metric.Sim.{CreateRequest}
use pumo_bio_metric.Hardware.{End, source, target, Driver, Hw, continue, ◌>>=◌, close, is_open}
use pumo_bio_metric.Hardware.Migrate.{close_both, migrate_run, migrate_single_user_real}
use pumo_bio_metric.Hardware.Batch.{batch_run, delete_batch_real}
use pumo_bio_metric.Hardware.Accounts.{
  create_run, delete_run, create_device_user_real, delete_device_user_real,
}

module _ {D : Driver} where
  close-is_open : (e : End) (h : Hw D) → is_open e (close D e h).1.log ≡ false
  unfolding close is_open
  close-is_open source h = elim (Bool-cases (is_open source h.log)) [
    | inl t ↦ rw t refl
    | inr f ↦ rw f f
  ]
  close-is_open target h = elim (Bool-cases (is_open target h.log)) [
    | inl t ↦ rw t refl
    | inr f ↦ rw f f
  ]

  close_target_lem :
      (h : Hw D) → is_open source h.log ≡ false → is_open source (close D target h).1.log ≡ false
  unfolding close is_open
  close_target_lem h p = elim (Bool-cases (is_open target h.log)) [
    | inl t ↦ rw t (rw p refl)
    | inr f ↦ rw f p
  ]

  run_closed : (e : End) (h : Hw D) → is_open e (close D target (close D source h).1).1.log ≡ false
  run_closed source h = close_target_lem (close D source h).1 (close-is_open source h)
  run_closed target h = close-is_open target (close D source h).1

  -- Closing the first connection does not raise, so that the second one is closed as well.
  pub continue-close :
      (h : Hw D)
      → (continue (close D source h) (λ _. close D target)).1
        ≡ (close D target (close D source h).1).1
  unfolding close ◌>>=◌
  continue-close h = elim (Bool-cases (is_open source h.log)) [
    | inl t ↦ rw t refl
    | inr f ↦ rw f refl
  ]

  close_both-is_open :
      (m : MigrateRequest) (src tgt : Resolved) (e : End) (h : Hw D)
      → is_open e (close_both D m src tgt h).log ≡ false
  unfolding close_both ◌>>=◌
  close_both-is_open m src tgt e h = rw continue-close (run_closed e h)

migrate-is_open :
    (D : Driver) (has_pyzk : Bool) (registry : Dict DeviceInfo) (source_port target_port : ℕ)
    (m : MigrateRequest) (h : Hw D) (e : End)
    → is_open e (migrate_single_user_real D has_pyzk registry source_port target_port m h).1.log
      ≡ false
unfolding migrate_single_user_real migrate_run ◌>>=◌ is_open
migrate-is_open D true registry source_port target_port m h e = close_both-is_open m _ _ e _
migrate-is_open D false registry source_port target_port m h e = refl

create-is_open :
    (D : Driver) (has_pyzk : Bool) (registry : Dict DeviceInfo) (c : CreateRequest) (h : Hw D)
    → is_open target (create_device_user_real D has_pyzk registry c h).1.log ≡ false
unfolding create_device_user_real create_run is_open
create-is_open D has_pyzk registry c h =
    let no_name = is_empty (strip c.user_id) || is_empty (strip c.name) in
    elim (Bool-cases no_name) [
      | inl t ↦ rw t refl
      | inr f ↦ rw f (elim (Bool-cases (ltb 24 (length (strip c.user_id)))) [
        | inl t ↦ rw t refl
        | inr f ↦ rw f (elim (Bool-cases has_pyzk) [
          | inl t ↦ rw t (close-is_open target _)
          | inr f ↦ rw f refl
        ])
      ])
    ]

delete-is_open :
    (D : Driver) (has_pyzk : Bool) (registry : Dict DeviceInfo) (port : ℕ) (ip : Option Text)
    (device_id pin : Text) (only : Bool) (h : Hw D)
    → is_open target
        (delete_device_user_real D has_pyzk registry port ip device_id pin only h).1.log
      ≡ false
unfolding delete_device_user_real delete_run is_open
delete-is_open D true registry port ip device_id pin only h = close-is_open target _
delete-is_open D false registry port ip device_id pin only h = refl

batch-is_open :
    (D : Driver) (has_pyzk : Bool) (registry : Dict DeviceInfo) (port : ℕ) (ip : Option Text)
    (device_id : Text) (uids : List Text) (only : Bool) (h : Hw D)
    → is_open target (delete_batch_real D has_pyzk registry port ip device_id uids only h).1.log
      ≡ false
unfolding delete_batch_real batch_run is_open
batch-is_open D has_pyzk registry port ip device_id [] only h = refl
batch-is_open D true registry port ip device_id (uid ∷ uids) only h = close-is_open target _
batch-is_open D false registry port ip device_id (uid ∷ uids) only h = refl

-- Whatever the readers answer and whichever call raises, when a migration, a creation, a deletion
-- or a deletion of a batch on hardware readers returns, it has called `disconnect` on each
-- connection that it opened.
pub real_calls-is_open :
    (D : Driver) (has_pyzk only : Bool) (registry : Dict DeviceInfo) (source_port target_port : ℕ)
    (ip : Option Text) (device_id pin : Text) (uids : List Text) (m : MigrateRequest)
    (c : CreateRequest) (h : Hw D) (e : End)
    → (is_open e (migrate_single_user_real D has_pyzk registry source_port target_port m h).1.log
        ≡ false)
      × (is_open target (create_device_user_real D has_pyzk registry c h).1.log ≡ false)
      × (is_open target
            (delete_device_user_real D has_pyzk registry source_port ip device_id pin only h).1.log
          ≡ false)
      × (is_open target
            (delete_batch_real D has_pyzk registry source_port ip device_id uids only h).1.log
          ≡ false)
real_calls-is_open D has_pyzk only registry source_port target_port ip device_id pin uids m c h e =
    (
      migrate-is_open D has_pyzk registry source_port target_port m h e,
      create-is_open D has_pyzk registry c h,
      delete-is_open D has_pyzk registry source_port ip device_id pin only h,
      batch-is_open D has_pyzk registry source_port ip device_id uids only h,
    )
