-- ===== src/Tests/Directory.antt =====
-- The theorems on the directory of employees at concrete inputs.
use pumo_bio_metric.Dict
use pumo_bio_metric.Prelude.{
  update_first, false, arith, [], ◌++◌, map, all, any, filter_by, find?, if◌then◌else◌, length,
  none, refl, some, true, ◌&&◌, ◌+◌, ◌≡◌, ◌≢◌,
}
use pumo_bio_metric.Employee.{
  Access, BranchDevice, branch_device, branch_of, find_employee, get_branches, matches, pin_on,
}
use pumo_bio_metric.Dict.{Dict, get}
use pumo_bio_metric.Employee.Directory.{SamePerson, employee_at}
use pumo_bio_metric.Text.{Text, codes, is_space, lower, lower_code, lstrip, rstrip, same, strip}
use pumo_bio_metric.Employee.AccessLists.{access_at}
use pumo_bio_metric.Employee.Transfers.{
  after_migration, transfer_employee-access, transfer_employee-ok,
}
use pumo_bio_metric.Employee.Offboard.{
  all_targets, delete_employee_permanently, delete_found, delete_on_each, fire_employee, fire_found,
  fire_targets, fired_employee, is_fire_all, single_device,
}
use pumo_bio_metric.Tests.Data.{
  asha, branch_1, branch_2, check, copy_result, fire_request, fire_results, gowtham, gowtham_fired,
  gowtham_granted, gowtham_moved, grant_request, pin_102, reader_1, reader_2, result, serial_1,
  service, today, transfer_request, world, world_fired, world_granted, world_moved,
}
use pumo_bio_metric.Employee.Removal.{asked, fire_employee-ok, fire_employee-wiped, fired_access}
use pumo_bio_metric.Employee.Recording.{recording}
use pumo_bio_metric.Employee.Service.{
  World, biometric_step, copied_access, migrate_employee, migrated, moved_access, read_mode,
  set_access, transfer_biometric, transfer_checked, transfer_employee, transfer_found, transfer_to,
  transferred_access,
}
use pumo_bio_metric.Device.{
  by_ip, by_serial, default_registry, is_alpha, looks_like_ip, registered, resolve_device,
  sim_source, standalone,
}
use pumo_bio_metric.Employee.Grants.{grant_multi_branch_access-ok}
use pumo_bio_metric.Sim.{delete_device_user_simulated, max_uid, sim_device}
use pumo_bio_metric.Employee.Deletions.{delete_employee_permanently-ok}
use pumo_bio_metric.Text.Numbers.{digits, str}
use pumo_bio_metric.Migration.{
  first_given, is_move, is_ok, migrate_between, migrate_on, migrate_single_user_simulated, place,
  resolve_target_pin_simulated, wanted_pin, write_profile,
}
use pumo_bio_metric.Employee.Roaming.{
  grant_between, grant_found, grant_from, grant_multi_branch_access, grant_target, registered_port,
}
use pumo_bio_metric.Sim.Users.{user_at}

transfer_employee-ok_example :
    (gowtham.branch_id ≢ transfer_request.to_branch_id)
    × (branch_of transfer_request.to_branch_id (get_branches default_registry) ≢ none)
    × (find_employee transfer_request.employee_id world_moved.directory ≡ some gowtham_moved)
    × SamePerson gowtham gowtham_moved
    × (gowtham_moved.name ≡ gowtham.name)
    × (gowtham_moved.branch_id ≡ transfer_request.to_branch_id)
    × (length gowtham_moved.transfer_history ≡ length gowtham.transfer_history + 1)
    × (employee_at 8 world_moved.directory ≡ employee_at 8 world.directory)
unfolding find_employee find? matches same str digits strip lstrip rstrip is_space lower lower_code
    branch_of get_branches branch_device pin_on resolve_device registered by_serial by_ip is_alpha
    looks_like_ip standalone Dict.get sim_device resolve_target_pin_simulated
    migrate_single_user_simulated first_given migrate_on migrate_between is_move place wanted_pin
    write_profile max_uid filter_by update_first any all transfer_employee transfer_found
    transfer_checked transfer_to biometric_step transfer_biometric migrate_employee read_mode
    transferred_access moved_access copied_access set_access
transfer_employee-ok_example =
    transfer_employee-ok service default_registry transfer_request today world world_moved gowtham
      gowtham_moved (migrated result check) 8 refl refl (ground arith)

transfer_employee-access_example :
    (a : Access) × (a.pin ≡ check.target_pin)
    × ((q : Text)
        → access_at q gowtham_moved.access
          ≡ after_migration
              (read_mode transfer_request.biometric_mode)
              reader_1
              reader_2
              (is_ok result)
              a
              gowtham.access
              q)
unfolding find_employee find? matches same str digits strip lstrip rstrip is_space lower lower_code
    branch_of get_branches branch_device pin_on resolve_device registered by_serial by_ip is_alpha
    looks_like_ip standalone Dict.get sim_device resolve_target_pin_simulated
    migrate_single_user_simulated first_given migrate_on migrate_between is_move place wanted_pin
    write_profile max_uid filter_by update_first any all transfer_employee transfer_found
    transfer_checked transfer_to biometric_step transfer_biometric migrate_employee read_mode
    transferred_access moved_access copied_access set_access
transfer_employee-access_example =
    transfer_employee-access service default_registry transfer_request today world world_moved
      gowtham gowtham_moved result check branch_1 branch_2 reader_1 reader_2 [] [] refl refl refl
      refl refl refl

grant_multi_branch_access-ok_example :
    (t : BranchDevice) × (a : Access) × (grant_target default_registry grant_request ≡ some t)
    × (gowtham_granted.branch_id ≡ gowtham.branch_id)
    × (a.pin ≡ check.target_pin)
    × ((q : Text)
        → access_at q gowtham_granted.access
          ≡ (if is_ok copy_result && same t.sn q then some a else access_at q gowtham.access))
    × (find_employee grant_request.employee_id world_granted.directory ≡ some gowtham_granted)
    × (employee_at 8 world_granted.directory ≡ employee_at 8 world.directory)
unfolding find_employee find? matches same str digits strip lstrip rstrip is_space lower lower_code
    branch_of get_branches branch_device pin_on resolve_device registered by_serial by_ip is_alpha
    looks_like_ip standalone Dict.get sim_device resolve_target_pin_simulated
    migrate_single_user_simulated first_given migrate_on migrate_between is_move place wanted_pin
    write_profile max_uid filter_by update_first any all grant_multi_branch_access grant_found
    grant_between grant_from grant_target registered_port migrate_employee copied_access set_access
grant_multi_branch_access-ok_example =
    grant_multi_branch_access-ok service default_registry grant_request world world_granted gowtham
      gowtham_granted copy_result check 8 refl refl (ground arith)

-- The same world with readers that note the deletions.
abbrev world_noted : World (recording service)
world_noted = record { directory = world.directory; readers = (world.readers, []) }

abbrev world_noted_fired : World (recording service)
world_noted_fired =
    (fire_employee (recording service) default_registry fire_request today world_noted).1

abbrev world_noted_deleted : World (recording service)
world_noted_deleted =
    (delete_employee_permanently (recording service) default_registry (codes "7") true today
      world_noted).1

fire_employee-ok_example :
    (world_noted_fired.readers.1
      ≡ []
        ++ map
            (λ t. (t, same fire_request.delete_mode (codes "biometrics_only")))
            (fire_targets default_registry fire_request gowtham))
    × (asked fire_results ≡ fire_targets default_registry fire_request gowtham)
    × (access_at serial_1 gowtham_fired.access ≡ fired_access fire_request serial_1 gowtham.access)
    × (gowtham_fired.status
        ≡ (if is_fire_all fire_request then some (codes "Terminated") else gowtham.status))
    × (find_employee fire_request.employee_id world_noted_fired.directory ≡ some gowtham_fired)
    × (employee_at 8 world_noted_fired.directory ≡ employee_at 8 world_noted.directory)
unfolding find_employee find? matches same str digits strip lstrip rstrip is_space lower lower_code
    branch_of get_branches branch_device pin_on resolve_device registered by_serial by_ip is_alpha
    looks_like_ip standalone Dict.get sim_device resolve_target_pin_simulated
    migrate_single_user_simulated first_given migrate_on migrate_between is_move place wanted_pin
    write_profile max_uid filter_by update_first any all fire_employee fire_found fire_targets
    single_device all_targets is_fire_all fired_employee delete_on_each registered_port
    delete_device_user_simulated delete_employee_permanently delete_found
fire_employee-ok_example =
    fire_employee-ok service default_registry fire_request today serial_1 world_noted
      world_noted_fired gowtham gowtham_fired fire_results 8 refl refl (ground arith)

fire_employee-wiped_example : user_at sim_source pin_102 world_fired.readers ≡ none
unfolding find_employee find? matches same str digits strip lstrip rstrip is_space lower lower_code
    branch_of get_branches branch_device pin_on resolve_device registered by_serial by_ip is_alpha
    looks_like_ip standalone Dict.get sim_device resolve_target_pin_simulated
    migrate_single_user_simulated first_given migrate_on migrate_between is_move place wanted_pin
    write_profile max_uid filter_by update_first any all fire_employee fire_found fire_targets
    single_device all_targets is_fire_all fired_employee delete_on_each registered_port
    delete_device_user_simulated delete_employee_permanently delete_found
fire_employee-wiped_example =
    fire_employee-wiped default_registry fire_request today serial_1 pin_102 world world_fired
      gowtham gowtham_fired fire_results sim_source refl refl refl refl refl

delete_employee_permanently-ok_example :
    (find_employee (codes "7") world_noted_deleted.directory ≡ none)
    × (employee_at 8 world_noted_deleted.directory ≡ some asha)
    × (world_noted_deleted.readers.1
        ≡ (if true then [] ++ map (λ t. (t, false)) (all_targets default_registry gowtham) else []))
    × ((if true then world_noted.readers.0 else world_noted_deleted.readers.0)
        ≡ world_noted.readers.0)
    × (asked fire_results ≡ (if true then all_targets default_registry gowtham else []))
unfolding find_employee find? matches same str digits strip lstrip rstrip is_space lower lower_code
    branch_of get_branches branch_device pin_on resolve_device registered by_serial by_ip is_alpha
    looks_like_ip standalone Dict.get sim_device resolve_target_pin_simulated
    migrate_single_user_simulated first_given migrate_on migrate_between is_move place wanted_pin
    write_profile max_uid filter_by update_first any all fire_employee fire_found fire_targets
    single_device all_targets is_fire_all fired_employee delete_on_each registered_port
    delete_device_user_simulated delete_employee_permanently delete_found
delete_employee_permanently-ok_example =
    delete_employee_permanently-ok service default_registry (codes "7") today true world_noted
      world_noted_deleted gowtham asha fire_results 8 refl refl refl refl
