-- ===== src/Router/Both.antt =====
-- core/device_migration.py as the routes call it: on the simulated readers for `simulate=True`, and on
-- an engine that stands for the hardware otherwise. A simulated reader stores numbers from 0 on; a
-- negative port, privilege or card, which the code takes as it is, stands as 0 there.
use pumo_bio_metric.Prelude.{
  ℕ, Bool, true, false, [], ◌∷◌, if◌then◌else◌, Option, none, some, Result, ok, err,
}
use pumo_bio_metric.Text.{Text}
use pumo_bio_metric.Text.Numbers.{ℤ, pos, negsuc}
use pumo_bio_metric.Dict.{Dict}
use pumo_bio_metric.Device.{DeviceInfo}
use pumo_bio_metric.Sim.{
  SimState, SimUser, SimError, DeleteReply, BatchReply, CreateRequest, create_device_user_simulated,
  delete_device_user_simulated, delete_batch_simulated, reset_simulation_state,
}
use pumo_bio_metric.Sim.Inventory.{
  Fetched, Probe, fetch_device_users_simulated, probe_device_simulated,
}
use pumo_bio_metric.Migration.{PinCheck, resolve_target_pin_simulated, run_migration_simulated}
use pumo_bio_metric.Router.Engine.{Engine, CreateCall}

abbrev pub natural : ℤ → ℕ
natural (pos n) = n
natural (negsuc n) = 0

pub data Reply (Real : Type 0) : Type 0 where
  created : Result SimError SimUser → Reply Real
  deleted : Result SimError DeleteReply → Reply Real
  batch : BatchReply → Reply Real
  probed : Probe → Reply Real
  fetched : Result SimError Fetched → Reply Real
  checked : PinCheck → Reply Real
  real : Real → Reply Real

abbrev pub succeeded {ℓ} : {A : Type ℓ} → Result SimError A → Bool
succeeded (ok _) = true
succeeded (err _) = false

-- `res.get("ok")`
unfoldable pub reply_ok : {R : Type 0} → (R → Bool) → Reply R → Bool
reply_ok real_ok (created r) = succeeded r
reply_ok real_ok (deleted r) = succeeded r
reply_ok real_ok (batch r) = true
reply_ok real_ok (probed r) = true
reply_ok real_ok (fetched r) = succeeded r
reply_ok real_ok (checked r) = true
reply_ok real_ok (real r) = real_ok r

abbrev pub create_request : CreateCall → CreateRequest
create_request c = record {
  device_id = c.device_id;
  user_id = c.user_id;
  name = c.name;
  port = natural c.link.port;
  privilege = natural c.privilege;
  password = c.password;
  card = natural c.card;
  ip_override = c.ip_override;
}

abbrev pub target_pins : Option (Text × Text) → Dict Text
target_pins none = []
target_pins (some entry) = entry ∷ []

module _ (registry : Dict DeviceInfo) (names : Dict Text) (hardware : Engine) where
  abbrev pub State : Type 0
  State = SimState × hardware.State

  -- The simulated readers, or the hardware.
  abbrev pub choose :
      {A B C : Type 0}
      → Bool
      → (A → C)
      → (SimState → A × SimState)
      → (B → C)
      → (hardware.State → B × hardware.State)
      → State
      → C × State
  choose simulate f sim g hard (s, h) =
      let (a, s') = sim s in
      let (b, h') = hard h in if simulate then (f a, (s', h)) else (g b, (s, h'))

  abbrev pub both : Engine
  both = record {
    State = State;
    Reply = Reply hardware.Reply;
    is_ok = reply_ok hardware.is_ok;
    create_device_user = λ c.
        choose c.link.simulate created (create_device_user_simulated registry (create_request c))
          real (hardware.create_device_user c);
    probe_device_connection = λ c.
        choose c.link.simulate probed
          (λ s. (probe_device_simulated registry c.device_id (natural c.link.port) s, s)) real
          (hardware.probe_device_connection c);
    fetch_device_users = λ c.
        choose c.link.simulate fetched
          (λ s.
            (fetch_device_users_simulated registry names c.device_id (natural c.link.port) s, s))
          real (hardware.fetch_device_users c);
    run_migration = λ c.
        choose c.simulate (λ rs. rs)
          (run_migration_simulated registry c.source_id c.target_id c.mode
            (target_pins c.target_pin) c.user_ids)
          (λ rs. rs) (hardware.run_migration c);
    delete_device_user = λ c.
        choose c.link.simulate deleted
          (delete_device_user_simulated registry c.device_id c.who c.biometrics_only) real
          (hardware.delete_device_user c);
    delete_batch_device_users = λ c.
        choose c.link.simulate batch
          (delete_batch_simulated registry c.device_id c.who c.biometrics_only) real
          (hardware.delete_batch_device_users c);
    resolve_target_pin = λ c.
        choose c.link.simulate checked
          (λ s.
            (resolve_target_pin_simulated registry c.target_id c.preferred_pin c.user_name s, s))
          real (hardware.resolve_target_pin c);
    reset_simulation_state = λ s. (reset_simulation_state, s.1);
  }
