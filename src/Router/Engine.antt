-- ===== src/Router/Engine.antt =====
-- What the routes of app/router/migration.py call in core/device_migration.py, and with what.
use pumo_bio_metric.Prelude.{Bool, List, Option}
use pumo_bio_metric.Text.{Text}
use pumo_bio_metric.Text.Numbers.{ℤ}
use pumo_bio_metric.Migration.{MigrationResult}

-- The arguments that every call takes.
pub record Link : Type 0 where
  pub port : ℤ
  pub timeout : ℤ
  pub simulate : Bool

pub record CreateCall : Type 0 where
  pub device_id : Text
  pub user_id : Text
  pub name : Text
  pub privilege : ℤ
  pub password : Text
  pub card : ℤ
  pub ip_override : Option Text
  pub link : Link

-- `test-connection` and `users`
pub record ReaderCall : Type 0 where
  pub device_id : Text
  pub link : Link

pub record MigrationCall : Type 0 where
  pub source_id : Text
  pub source_port : ℤ
  pub target_id : Text
  pub target_port : ℤ
  pub user_ids : List Text
  pub mode : Text
  pub simulate : Bool
  pub timeout : ℤ
  -- `target_user_ids`, where one user has a PIN of its own
  pub target_pin : Option (Text × Text)

-- `/transfer-user`
pub record TransferCall : Type 0 where
  pub source_id : Text
  pub source_port : ℤ
  pub target_id : Text
  pub target_port : ℤ
  pub user_id : Text
  pub target_pin : Option Text
  pub mode : Text
  pub simulate : Bool
  pub timeout : ℤ

-- One user or several.
pub record DeleteCall (Who : Type 0) : Type 0 where
  pub device_id : Text
  pub who : Who
  pub biometrics_only : Bool
  pub ip_override : Option Text
  pub link : Link

pub record PinCall : Type 0 where
  pub target_id : Text
  pub preferred_pin : Text
  pub user_name : Option Text
  pub link : Link

pub record Engine : Type 1 where
  pub State : Type 0
  pub Reply : Type 0
  -- `res.get("ok")`
  pub is_ok : Reply → Bool
  pub create_device_user : CreateCall → State → Reply × State
  pub probe_device_connection : ReaderCall → State → Reply × State
  pub fetch_device_users : ReaderCall → State → Reply × State
  pub run_migration : MigrationCall → State → List MigrationResult × State
  pub delete_device_user : DeleteCall Text → State → Reply × State
  pub delete_batch_device_users : DeleteCall (List Text) → State → Reply × State
  pub resolve_target_pin : PinCall → State → Reply × State
  pub reset_simulation_state : State → State
