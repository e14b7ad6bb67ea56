-- ===== src/Tests/Readers.antt =====
-- The theorems on the readers at concrete inputs.
use pumo_bio_metric.Sim.Inventory.{Fetched, listed}
use pumo_bio_metric.Prelude.{
  map, [], any, false, find?, if◌then◌else◌, length, none, refl, some, true, ℕ, ◌&&◌, ◌<◌, ◌∷◌, ◌≡◌,
  ◌≤◌,
}
use pumo_bio_metric.Sim.State.{IsWellFormed, same_ref}
use pumo_bio_metric.Migration.Between.{Migrated}
use pumo_bio_metric.Migration.{
  first_given, is_move, is_ok, migrate_between, migrate_on, migrate_single_user_simulated,
  wanted_pin,
}
use pumo_bio_metric.Device.{
  SimRef, default_registry, registered, resolve_device, sim_source, sim_target,
}
use pumo_bio_metric.Tests.Data.{
  asha_on_reader, create_asha, gowtham_on_reader, move_gowtham, move_home, pin_102, pin_9999,
  readers, readers_created, serial_1,
}
use pumo_bio_metric.Text.{is_empty, codes, lower, same, strip}
use pumo_bio_metric.Pin.{contains, free_number}
use pumo_bio_metric.Sim.Users.{create_device, create_device_user-user_at, user_at}
use pumo_bio_metric.Sim.{
  create_device_user_simulated, has_uid, max_uid, override_ip, sim_device, users_of,
}
use pumo_bio_metric.Pin.Laws.{free_number-least}
use pumo_bio_metric.Migration.Same.{migrate_between-same}
use pumo_bio_metric.Migration.Run.{migrate_single_user-Migrated}
use pumo_bio_metric.Text.Numbers.{pos}

readers-IsWellFormed : IsWellFormed readers
unfolding any same
readers-IsWellFormed = record {
  source = (refl, refl, (refl, refl, (refl, refl, tt)));
  target = (refl, refl, tt);
}

migrate_single_user-Migrated_example :
    Migrated move_gowtham sim_source sim_target readers
      (migrate_single_user_simulated default_registry move_gowtham readers)
unfolding migrate_single_user_simulated sim_device same resolve_device registered strip first_given
    migrate_on migrate_between find?
migrate_single_user-Migrated_example =
    migrate_single_user-Migrated default_registry move_gowtham sim_source sim_target readers refl
      refl refl refl

migrate_between-same_example :
    (is_ok (migrate_between move_home serial_1 serial_1 sim_source sim_source readers).0 ≡ true)
    × (user_at sim_source pin_102
          (migrate_between move_home serial_1 serial_1 sim_source sim_source readers).1
        ≡ (if same_ref sim_source sim_source && same move_home.user_id pin_102
            then none
            else user_at sim_source pin_102 readers))
unfolding is_move wanted_pin same lower find?
migrate_between-same_example =
    migrate_between-same move_home serial_1 serial_1 sim_source sim_source pin_102 gowtham_on_reader
      readers refl refl refl

free_number-least_example :
    (contains (pos 7 ∷ pos 8 ∷ []) (pos (free_number (pos 7 ∷ pos 8 ∷ []) 7)) ≡ false)
    × (7 ≤ free_number (pos 7 ∷ pos 8 ∷ []) 7)
    × ((k : ℕ)
        → 7 ≤ k
        → k < free_number (pos 7 ∷ pos 8 ∷ []) 7
        → contains (pos 7 ∷ pos 8 ∷ []) (pos k) ≡ true)
free_number-least_example = free_number-least (pos 7 ∷ pos 8 ∷ []) 7

create_device_user-user_at_example :
    (dev : SimRef) × (create_device default_registry create_asha ≡ some dev)
    × (is_empty (strip create_asha.user_id) ≡ false)
    × (length (strip create_asha.user_id) ≤ 24)
    × (user_at dev (strip create_asha.user_id) readers ≡ none)
    × (any (has_uid asha_on_reader.uid) (users_of dev readers) ≡ false)
    × (user_at sim_target pin_9999 readers_created ≡ (
        if same_ref dev sim_target && same (strip create_asha.user_id) pin_9999
        then some asha_on_reader
        else user_at sim_target pin_9999 readers))
unfolding create_device_user_simulated strip sim_device same override_ip resolve_device registered
    any max_uid
create_device_user-user_at_example =
    create_device_user-user_at default_registry create_asha asha_on_reader readers readers_created
      sim_target pin_9999 refl

abbrev fetched : Fetched
fetched = record {
  serial_number = serial_1;
  ip = codes "192.168.0.210";
  count = 3;
  users = map (listed []) readers.source_users;
}
