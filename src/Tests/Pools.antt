-- ===== src/Tests/Pools.antt =====
-- The theorems on the connection pool and on the table of readers at concrete inputs.
use pumo_bio_metric.Prelude.{
  update_all, List, [], all, arith, count_by, find?, none, refl, some, true, ◌<◌, ◌∷◌, ◌≡◌,
}
use pumo_bio_metric.Text.{codes, same}
use pumo_bio_metric.Sync.Database.Devices.{Contact, Device, device_at, heartbeat}
use pumo_bio_metric.Sync.Database.{
  Database, Move, attribute_error, close, close_pool, ensure, ensure_in, ensure_pool, free, leave,
  leave_block, leave_in, phase_at, put, put_connection, put_in, return_in, return_pool, run,
  set_phase, step, succeeds, take, test_in, test_for_pool, test_pool, take_connection, take_from,
  take_in, using,
}
use pumo_bio_metric.Sync.Database.Leases.{IsAccounted, run-IsAccounted}
use pumo_bio_metric.Sync.Database.Replaced.{failed-is_replaced}

abbrev idle : Database
idle = record { pool = none; opened = 0; threads = free none ∷ free none ∷ [] }

-- Both threads of the pool have a connection.
abbrev busy : Database
busy = record {
  pool = some (record { id = 0; leased = 2 });
  opened = 1;
  threads = using 0 ∷ using 0 ∷ [];
}

abbrev both_use : List Move
both_use =
    ensure 0 true ∷ ensure 1 true ∷ return_pool 0 ∷ return_pool 1 ∷ take 0 true ∷ take 1 true ∷ []

both_use_lem : run both_use idle ≡ busy
unfolding run step ensure_in ensure_pool return_in take_in take_connection take_from set_phase
both_use_lem = refl

-- The other thread leaves, calls again and gets a new pool.
abbrev call_again : List Move
call_again =
    test_pool 0 ∷ leave 1 succeeds ∷ test_pool 1 ∷ ensure 1 true ∷ return_pool 1 ∷ take 1 true ∷ []

run-IsAccounted_example : IsAccounted (run both_use idle)
unfolding all
run-IsAccounted_example = run-IsAccounted both_use idle refl

failed-is_replaced_example : 0 < 1
unfolding run step ensure_in ensure_pool return_in take_in take_connection take_from set_phase
    leave_in leave_block test_in test_for_pool close_pool all count_by
failed-is_replaced_example =
    failed-is_replaced 0 0 (record { id = 1; leased = 1 }) call_again busy
      (refl, omega arith, refl, refl) refl refl

-- Another thread that closes the pool between the creation and the `return` of `_ensure_pool` makes the call
-- end with an `AttributeError`.
abbrev closed_between : List Move
closed_between = ensure 0 true ∷ close ∷ return_pool 0 ∷ take 0 true ∷ []

closed_between_lem :
    phase_at 0 (run closed_between idle).threads ≡ some (free (some attribute_error))
unfolding run step ensure_in ensure_pool return_in take_in take_connection set_phase close_pool
closed_between_lem = refl

-- Another thread that closes the pool between the test of `finally` and `putconn` makes a call that was
-- committed end with an `AttributeError`.
abbrev closed_in_finally : List Move
closed_in_finally = leave 0 succeeds ∷ test_pool 0 ∷ close ∷ put 0 ∷ []

closed_in_finally_lem :
    phase_at 0 (run closed_in_finally busy).threads ≡ some (free (some attribute_error))
unfolding run step leave_in leave_block test_in test_for_pool put_in put_connection set_phase
    close_pool
closed_in_finally_lem = refl

abbrev reader_row : Device
reader_row = record {
  serial_no = codes "A1";
  last_seen_at = none;
  offline_alerted_at = some 5;
  last_error = none;
  ip_address = none;
  model = some (codes "K40");
  firmware = none;
}

abbrev contact : Contact
contact = record { ip_address = some (codes "10.0.0.7"); model = none; firmware = none }

abbrev after_contact : Device
after_contact = record {
  serial_no = codes "A1";
  last_seen_at = some 9;
  offline_alerted_at = none;
  last_error = none;
  ip_address = some (codes "10.0.0.7");
  model = some (codes "K40");
  firmware = none;
}

contact_lem :
    device_at (codes "A1") (heartbeat 9 (codes "A1") contact (reader_row ∷ [])).1
    ≡ some after_contact
unfolding heartbeat find? update_all same
contact_lem = refl
