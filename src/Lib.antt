-- ===== src/Lib.antt =====
-- The biometric capture service: a verification library for the package app/.
--
-- The service keeps a directory of employees, manages their users on fingerprint readers, and
-- passes the punches of the readers on to a database. The files:
--
-- Prelude and Prelude/: the library names, Boolean tests, Python's list idioms and results.
-- Text, Text/Numbers, Dict: Python's str (as a list of code points), int and dict.
-- Pin, Pin/Laws: the search for a free number in app/core/device_migration.py.
-- Device, Device/Resolve: get_registered_devices and resolve_device of the same file. The registry
-- file is a value; its absence is `none`.
-- Sim, Sim/State, Sim/Users, Sim/Delete, Sim/Batch, Sim/Inventory: the simulated readers of that
-- file. The seven keys of SIMULATED_DEVICES name two objects, so a state has two user lists and
-- SimRef says which one a key names. create_device_user, delete_device_user and
-- delete_batch_device_users pass the state explicitly; fetch_device_users and
-- probe_device_connection read it.
-- Migration, Migration/Pins, Simulated, Between, Same, Run, Each: resolve_target_pin,
-- migrate_single_user_simulated and run_migration, with simulate=True. Hardware/Pins has
-- resolve_target_pin for hardware readers.
-- Employee, Employee/Service, Roaming, Offboard: the five operations of
-- app/core/employee_service.py. They take the readers as an interface, the record Readers, which
-- `simulated` fills with the functions of the files above. The directory file is the list of
-- employees, and the day is an argument. Directory, AccessLists, Transfers, Recorded, Grants,
-- Removal and Deletions are their proofs, and Recording makes readers that note the deletions they
-- are asked for.
-- Sync/Time: strptime and strftime for the formats in use, and _parse_time. Sync/Punch:
-- app/sync/models.py. Sync/Spool: app/sync/spool.py. Sync/Ingest: app/sync/push_ingest.py,
-- save_punches of app/sync/lms_db.py and _flush of app/sync/supervisor.py. Sync/Supervisor: a
-- round of its loop. Sync/Supervisor/Lifecycle: start, stop and the threads of that file in any
-- order, and the health check of app/router/base.py. Sync/Database: the connection pool of
-- app/sync/lms_db.py, as a state machine that the steps of several threads drive in any order;
-- Phases, Leases and Replaced are about every schedule. Sync/Database/Devices: heartbeat and
-- record_traffic_error. Sync/Liveness: mark_seen and _write of app/sync/liveness.py. Sync/Config:
-- app/sync/config.py. The table with its driver is the interface Lms, whose laws are what
-- PostgreSQL documents of an INSERT with ON CONFLICT DO NOTHING: it leaves a row for each key that
-- it is given, and no insertion removes a row.
-- Commands, Commands/Fifo: queue_device_cmd and the queue of getrequest_handler in
-- app/router/iclock.py, against a queue for each reader.
-- Hardware: the package pyzk with the readers behind it as the interface Driver, and the runs of
-- app/core/device_migration.py against it. A call may raise; each call that reaches a reader is
-- noted in a log, newest first, and the specifications are about that log. Hardware/Migrate:
-- migrate_single_user_real. Hardware/Accounts: create_device_user and delete_device_user_real with
-- their fallback into the queue of commands. Hardware/Batch: delete_batch_device_users.
-- Hardware/Pins: resolve_target_pin with the listing it decides by. Hardware/Inventory:
-- probe_device_connection and fetch_device_users; Enabled is about the end of their runs, and Same
-- compares them with the simulated readers. Keeps and Triples are the logics of the runs;
-- Verified, Settled, Remaining, Places, Fallback and Closed are the proofs.
-- Iclock: the state that app/router/iclock.py keeps of users and punches. Iclock/Lines: the line
-- formats of parse_attlog. Iclock/Names: get_user_info. Iclock/Attlog: parse_attlog.
-- Iclock/History: broadcast_punch, prune_punch_logs, get_punches and clear_punches.
-- Iclock/Userinfo: parse_userinfo. Iclock/Direct: what sync_device_punches does with the answer of
-- a reader, and set_user_name. Iclock/Background: auto_sync_device_users_bg. Iclock/Handlers:
-- mark_seen and the routes that the readers call. Tabs, Direct/Once, History/Pruned,
-- Userinfo/Learned and Handlers/Routes are proofs. The database of the LMS is the record Outside,
-- and datetime.fromisoformat an argument.
-- Router: the endpoints of app/router/migration.py and app/router/employees.py. Router/Json: the
-- values of a JSON body, with the truth, str and int of Python. Router/Body: the ways in which a
-- route ends early. Router/Engine: what the routes of migration call, as an interface; Router/Both
-- fills it with the simulated readers for simulate=True and another engine for the hardware.
-- Router/Calls: from the body to the call. Router/Replies: contents, and the table
-- biometric_device_users. Router/Routes: the routes of migration; Router/Staff: those of the
-- employees, over an interface of app/core/employee_service.py. Proper, Statuses, Responses, Kept,
-- Transfers, Reading, Deleting, Running and Staff/Refusals are proofs. The text that Python gives
-- an array or an object is an argument.
-- Tests and Tests/: the theorems at concrete inputs, with a table in memory for Lms.
--
-- Bounds and fuel. Python's integers are unbounded and so are the model's. The search for a PIN
-- takes as fuel one more than the length of the list of used numbers: each step that is turned
-- away meets another one of them, for PINs and for uids alike. The digits of n take n + 1 steps of
-- fuel, and each step divides n by ten.
--
-- Not modelled: run_migration on hardware; of app/router/iclock.py the connection of the direct
-- reading of punches, the streams to browsers and what is written to the database of the LMS; the
-- scripts of tools/; logging, and the texts of messages. JSON numbers with a fraction are left
-- out, and a simulated reader keeps numbers from 0 on. That a call into the queue of commands
-- raises is not modelled. The times of punches are compared as naive ones. Two processes that
-- write the directory or the spool at once are not modelled. In the spool, `add` always succeeds,
-- and the lines of its file hold null, whole numbers and texts. The methods of str are those of
-- ASCII text.
pub mod Prelude
pub mod Text
pub mod Pin
pub mod Dict
pub mod Commands
pub mod Device
pub mod Sim
pub mod Migration
pub mod Employee
pub mod Hardware
pub mod Iclock
pub mod Sync
pub mod Router
pub mod Tests
