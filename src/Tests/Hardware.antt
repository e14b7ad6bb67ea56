-- ===== src/Tests/Hardware.antt =====
-- The functions for hardware readers with readers in memory, and with readers that are down.
use pumo_bio_metric.Hardware.Inventory.{hw_listed}
use pumo_bio_metric.Hardware.Inventory.Same.{templates_of, as_hw, hw_listed-templates_of}
use pumo_bio_metric.Sim.Inventory.{listed}
use pumo_bio_metric.Tests.Data.{readers}
use pumo_bio_metric.Hardware.Inventory.{Specs, probe_real, fetch_real}
use pumo_bio_metric.Hardware.Inventory.Enabled.{IsLeftWell, inventory-IsLeftWell}
use pumo_bio_metric.Dict
use pumo_bio_metric.Prelude.{
  List, [], all, any, false, filter_by, find?, map, none, not, refl, some, true, ℕ, ◌==◌, ◌||◌, ◌∷◌,
  ◌≡◌,
}
use pumo_bio_metric.Hardware.Accounts.{
  delete_found, AccountReply, create_device_user_real, delete_body, delete_commands,
  delete_device_user_real, delete_run, direct, or_queue_delete, update_command,
}
use pumo_bio_metric.Hardware.{
  Command, Driver, End, Hw, HwUser, attempt, close, connect, delete_user, get_users, is_open, note,
  pure, quietly, raise, run, set_user, source, target, ◌>>=◌,
}
use pumo_bio_metric.Sim.{CreateRequest, override_ip, sim_device, users_of}
use pumo_bio_metric.Dict.{Dict, get}
use pumo_bio_metric.Hardware.Batch.{
  HwBatchReply, batch_body, batch_run, checked, checked_item, delete_batch_real, delete_item,
  delete_items, forget_gone, item, last_user, settle, wipe_each,
}
use pumo_bio_metric.Hardware.Verified.{IsSafe, migrate_single_user_real-IsSafe}
use pumo_bio_metric.Text.{
  Text, codes, has_code, is_space, lower, lower_code, lstrip, rstrip, same, strip,
}
use pumo_bio_metric.Hardware.Fallback.{account_calls-pending, after_fallback, was_queued}
use pumo_bio_metric.Hardware.Remaining.{all_gone, delete_batch_real-all_gone, names}
use pumo_bio_metric.Device.{
  by_ip, by_serial, default_registry, is_alpha, looks_like_ip, registered, resolve_device,
  standalone, sim_source,
}
use pumo_bio_metric.Commands.{no_commands, pending}
use pumo_bio_metric.Hardware.Settled.{delete_device_user_real-gone, has_none, latest}
use pumo_bio_metric.Hardware.Places.{is_placed}
use pumo_bio_metric.Migration.{PinCheck, resolve_target_pin_simulated, to_existing}
use pumo_bio_metric.Hardware.Pins.{
  IsSafeAmong, IsSafeReply, resolve_target_pin_real, resolve_target_pin-IsSafe,
}
use pumo_bio_metric.Hardware.Migrate.{migrate_single_user_real}
use pumo_bio_metric.Tests.Data.{move_gowtham, pin_102, pin_9999, serial_1}
use pumo_bio_metric.Hardware.Closed.{real_calls-is_open}
use pumo_bio_metric.Hardware.Places.Created.{real_writes-is_placed}

record Memory : Type 0 where
  source_users : List HwUser
  target_users : List HwUser

abbrev users_at : End → Memory → List HwUser
users_at source m = m.source_users
users_at target m = m.target_users

abbrev set_at : End → List HwUser → Memory → Memory
set_at source us m = record m { source_users = us }
set_at target us m = record m { target_users = us }

-- A new profile goes before the others.
abbrev obey : End → Command → Memory → Memory
obey e (set_user u) m = set_at e (u ∷ users_at e m) m
obey e (delete_user uid _) m =
    set_at e (filter_by (λ (u : HwUser). not (u.uid == uid)) (users_at e m)) m
obey e _ m = m

-- The readers answer every call, and have no fingerprints.
abbrev memory : Driver
memory = record {
  World = Memory;
  connect = λ e ip port m. (true, m);
  command = λ e c m. (true, obey e c m);
  get_users = λ e m. (some (users_at e m), m);
  get_templates = λ e m. (some [], m);
  get_user_template = λ e uid fid pin m. (some none, m);
  delete_template = λ e uid fid pin m. (some true, m);
  send_delete = λ e pin fid m. (some true, m);
}

-- No connection succeeds.
abbrev down : Driver
down = record {
  World = Memory;
  connect = λ e ip port m. (false, m);
  command = λ e c m. (false, m);
  get_users = λ e m. (none, m);
  get_templates = λ e m. (none, m);
  get_user_template = λ e uid fid pin m. (none, m);
  delete_template = λ e uid fid pin m. (none, m);
  send_delete = λ e pin fid m. (none, m);
}

abbrev hw_user : ℕ → Text → Text → HwUser
hw_user uid pin name = record {
  uid = uid;
  user_id = pin;
  name = name;
  privilege = 0;
  password = [];
  group_id = [];
  card = 0;
}

abbrev stored : Memory
stored = record {
  source_users = hw_user 7 pin_102 (codes "Gowtham") ∷ [];
  target_users = hw_user 1 pin_9999 (codes "Admin") ∷ hw_user 2 pin_102 (codes "Ravi") ∷ [];
}

abbrev new_hire : CreateRequest
new_hire = record {
  device_id = serial_1;
  user_id = codes "300";
  name = codes "Meena";
  privilege = 0;
  password = [];
  card = 0;
  port = 4370;
  ip_override = none;
}

abbrev start : Hw memory
start = record { world = stored; log = []; commands = no_commands }

abbrev waiting_down : Hw down
waiting_down = record { world = stored; log = []; commands = no_commands }

abbrev gone_reply : AccountReply
gone_reply = direct serial_1 pin_102 true false 0

abbrev batch_reply : HwBatchReply
batch_reply = record {
  ok = true;
  failed = false;
  results = item true true false pin_102 ∷ item true true false pin_9999 ∷ [];
}

migrate_single_user_real-IsSafe_example :
    IsSafe move_gowtham.mode
      (migrate_single_user_real memory true default_registry 4370 4370 move_gowtham start).1.log
migrate_single_user_real-IsSafe_example =
    migrate_single_user_real-IsSafe memory true default_registry 4370 4370 move_gowtham start

real_writes-is_placed_example :
    (is_placed
        (migrate_single_user_real memory true default_registry 4370 4370 move_gowtham start).1.log
      ≡ true)
    × (is_placed (create_device_user_real memory true default_registry new_hire start).1.log ≡ true)
real_writes-is_placed_example =
    real_writes-is_placed memory true default_registry 4370 4370 move_gowtham new_hire start

resolve_target_pin-IsSafe_example :
    let c : PinCheck =
      resolve_target_pin_simulated default_registry serial_1 pin_102
        (some (codes "Asha"))
        readers in
    IsSafeAmong to_existing (users_of sim_source readers) (some (codes "Asha")) c.target_pin
    × (same c.target_pin (strip pin_102) ≡ not c.is_mapped)
    × IsSafeReply
        (fetch_real memory [] true default_registry serial_1 4370 start).0
        (strip pin_102)
        (some (codes "Asha"))
        (resolve_target_pin_real memory [] true default_registry 4370 serial_1 pin_102
          (some (codes "Asha"))
          start).0
unfolding sim_device resolve_device registered by_serial by_ip strip same
resolve_target_pin-IsSafe_example =
    resolve_target_pin-IsSafe memory [] true default_registry 4370 serial_1 pin_102
      (some (codes "Asha")) start readers sim_source refl

real_calls-is_open_example :
    (is_open source
        (migrate_single_user_real memory true default_registry 4370 4370 move_gowtham start).1.log
      ≡ false)
    × (is_open target (create_device_user_real memory true default_registry new_hire start).1.log
        ≡ false)
    × (is_open target
          (delete_device_user_real memory true default_registry 4370 none serial_1 pin_102 false
            start).1.log
        ≡ false)
    × (is_open target
          (delete_batch_real memory true default_registry 4370 none serial_1
            (pin_102 ∷ [])
            false
            start).1.log
        ≡ false)
real_calls-is_open_example =
    real_calls-is_open memory true false default_registry 4370 4370 none serial_1 pin_102
      (pin_102 ∷ []) move_gowtham new_hire start source

account_calls-pending_example :
    (pending serial_1
        (create_device_user_real down true default_registry new_hire waiting_down).1.commands
      ≡ after_fallback serial_1
          (override_ip new_hire.ip_override
            (resolve_device default_registry new_hire.port new_hire.device_id)).sn
          (was_queued (create_device_user_real down true default_registry new_hire waiting_down).0)
          (update_command new_hire ∷ [])
          waiting_down.commands)
    × (pending serial_1
          (delete_device_user_real down true default_registry 4370 none serial_1 pin_102 false
            waiting_down).1.commands
        ≡ after_fallback serial_1
            (override_ip none (resolve_device default_registry 4370 serial_1)).sn
            (was_queued
              (delete_device_user_real down true default_registry 4370 none serial_1 pin_102 false
                waiting_down).0)
            (delete_commands false pin_102)
            waiting_down.commands)
account_calls-pending_example =
    account_calls-pending down true false default_registry 4370 none serial_1 pin_102 new_hire
      serial_1 waiting_down

delete_device_user_real-gone_example :
    has_none pin_102 (
      latest
        (delete_device_user_real memory true default_registry 4370 none serial_1 pin_102 false
          start).1.log)
    ≡ true
unfolding delete_device_user_real delete_run or_queue_delete delete_body delete_found connect run
    get_users ◌>>=◌ attempt pure note raise quietly close is_open find? same any filter_by
    override_ip resolve_device registered Dict.get strip lstrip rstrip is_space by_serial by_ip
    standalone lower lower_code looks_like_ip is_alpha has_code
delete_device_user_real-gone_example =
    delete_device_user_real-gone memory true false default_registry 4370 none serial_1 pin_102 start
      gone_reply refl refl refl refl

delete_batch_real-all_gone_example :
    (names batch_reply.results ≡ map strip (pin_102 ∷ pin_9999 ∷ []))
    × ((false
          || all_gone
              (latest
                (delete_batch_real memory true default_registry 4370 none serial_1
                  (pin_102 ∷ pin_9999 ∷ [])
                  false
                  start).1.log)
              batch_reply.results)
        ≡ true)
unfolding delete_batch_real batch_run batch_body delete_items delete_item last_user settle
    forget_gone checked checked_item wipe_each all connect run get_users ◌>>=◌ attempt pure note
    raise quietly close is_open find? same any filter_by override_ip resolve_device registered
    Dict.get strip lstrip rstrip is_space by_serial by_ip standalone lower lower_code looks_like_ip
    is_alpha has_code
delete_batch_real-all_gone_example =
    delete_batch_real-all_gone memory true false default_registry 4370 none serial_1
      (pin_102 ∷ pin_9999 ∷ []) start batch_reply refl refl

abbrev no_specs : Specs memory
no_specs = record {
  get_device_name = λ m. (none, m);
  get_serialnumber = λ m. (some none, m);
  get_fp_version = λ m. (some 9, m);
  get_platform = λ m. (none, m);
}

inventory-IsLeftWell_example :
    IsLeftWell (probe_real memory no_specs true default_registry serial_1 4370 start)
    × IsLeftWell (fetch_real memory [] true default_registry serial_1 4370 start)
inventory-IsLeftWell_example =
    inventory-IsLeftWell no_specs [] true default_registry serial_1 4370 start

hw_listed-templates_of_example :
    map (hw_listed [] (templates_of readers.source_users)) (map as_hw readers.source_users)
    ≡ map (listed []) readers.source_users
unfolding any all same
hw_listed-templates_of_example =
    hw_listed-templates_of [] readers.source_users (refl, refl, (refl, refl, (refl, refl, tt))) refl
