-- ===== src/Tests/Protocol.antt =====
-- The queue of commands and the routes of the readers, without a database.
use pumo_bio_metric.Dict
use pumo_bio_metric.Prelude.{
  Bool, [], all, any, count_by, false, if◌then◌else◌, length, map, none, refl, some, true, ◌&&◌,
  ◌++◌, ◌||◌, ◌∷◌, ◌≡◌, ◌≤◌,
}
use pumo_bio_metric.Iclock.Direct.{
  Attendance, discover, is_known, record_key, row_key, sync_punches,
}
use pumo_bio_metric.Commands.{Commands, no_commands, pending, queue_device_cmd}
use pumo_bio_metric.Dict.{Dict, get}
use pumo_bio_metric.Iclock.Lines.{Fields, data_lines, fields_of}
use pumo_bio_metric.Iclock.History.{Iso, broadcast_punch, completed}
use pumo_bio_metric.Iclock.Handlers.{
  Now, Request, Service, cdata, effective_table, handshake, route, serial,
}
use pumo_bio_metric.Iclock.{Outside, PunchRow}
use pumo_bio_metric.Text.{
  Text, codes, has_code, is_space, lstrip, rstrip, same, startswith, strip, upper, upper_code,
}
use pumo_bio_metric.Iclock.Direct.Once.{all_new, sync_punches-all_new}
use pumo_bio_metric.Commands.Fifo.{answers, answers-fifo, fifo, poll, queue}
use pumo_bio_metric.Iclock.History.Pruned.{
  broadcast_punch-is_latest_first, is_kept, is_latest_first,
}
use pumo_bio_metric.Iclock.Handlers.Routes.{cdata-handed, lines_given, punch_lines, raws}
use pumo_bio_metric.Device.{default_registry}
use pumo_bio_metric.Iclock.Attlog.{fields, parse_attlog, parse_attlog-data_lines}
use pumo_bio_metric.Iclock.Tabs.{fields_of-tab_line, tab_line}
use pumo_bio_metric.Iclock.Names.{get_user_info}
use pumo_bio_metric.Text.Split.{includes}
use pumo_bio_metric.Iclock.Userinfo.Learned.{
  info_or, last_named, parse_userinfo-renamed_by, renamed_by,
}
use pumo_bio_metric.Iclock.Userinfo.{parse_userinfo}
use pumo_bio_metric.Tests.Data.{pin_102, serial_1, serial_2}

abbrev queued_twice : Commands
queued_twice =
    (queue_device_cmd serial_1 (codes "B") (queue_device_cmd serial_1 (codes "A") no_commands).1).1

abbrev no_iso : Iso
no_iso _ = none

abbrev offline : Outside
offline = record { device_user = λ _. none; staff = λ _. none; can_write = true }

abbrev at_noon : Now
at_noon = record {
  seconds = 100;
  text = codes "2026-01-31 12:00:00";
  stamp = 100;
  tick = 100;
  active = false;
  heartbeat = 60;
}

abbrev punch_fields : Fields
punch_fields = record {
  pin = pin_102;
  timestamp = codes "2026-01-31 09:00:00";
  status = codes "0";
  verify_type = codes "1";
  work_code = codes "0";
}

abbrev push : Request
push = record {
  is_get = false;
  sn = some serial_1;
  table = some (codes "ATTLOG");
  client_ip = none;
  body = codes "# rows\n" ++ tab_line punch_fields;
}

abbrev user_table : Text
user_table = codes "PIN=102\tName=Gowtham Raj\tPri=14\nPIN=102\tName=Gowtham\tPri=0"

abbrev morning_row : PunchRow
morning_row = record {
  sn = serial_1;
  user_id = pin_102;
  user_name = codes "User 102";
  user_role = codes "Normal User";
  timestamp = codes "2026-01-31 09:00:00";
  status = codes "0";
  verify_type = codes "1";
  work_code = codes "0";
  raw = tab_line punch_fields;
  status_label = none;
  verify_label = none;
}

abbrev record_9 : Attendance
record_9 = record {
  user_id = pin_102;
  timestamp = codes "2026-01-31 18:00:00";
  status = codes "1";
  punch = none;
}

abbrev all_rows : PunchRow → Bool
all_rows _ = true

abbrev service : Service
service = record {
  last_sync = [];
  registry = default_registry;
  commands = no_commands;
  liveness = record { last_write = []; warned = []; submitted = [] };
  iclock = record { users = []; saved_users = []; punches = morning_row ∷ []; saved_punches = [] };
  handed = [];
  background = [];
}

answers-fifo_example :
    answers serial_1
      (queue serial_1 (codes "A")
        ∷ queue serial_2 (codes "B")
        ∷ poll serial_2
        ∷ poll serial_1
        ∷ poll serial_1
        ∷ [])
      no_commands
    ≡ fifo serial_1
        (queue serial_1 (codes "A")
          ∷ queue serial_2 (codes "B")
          ∷ poll serial_2
          ∷ poll serial_1
          ∷ poll serial_1
          ∷ [])
        no_commands.counter
        (pending serial_1 no_commands)
answers-fifo_example =
    answers-fifo serial_1
      (queue serial_1 (codes "A")
        ∷ queue serial_2 (codes "B")
        ∷ poll serial_2
        ∷ poll serial_1
        ∷ poll serial_1
        ∷ [])
      no_commands refl

cdata-handed_example :
    (map raws (cdata no_iso offline at_noon push service).1.handed
      ≡ map raws service.handed
        ++ lines_given
            (if push.is_get then [] else punch_lines push.body (route (effective_table push))))
    × ((cdata no_iso offline at_noon push service).0
        ≡ (if push.is_get then handshake (serial push) else codes "OK"))
cdata-handed_example = cdata-handed no_iso offline at_noon push service

broadcast_punch-is_latest_first_example :
    let s' = broadcast_punch no_iso offline 100 morning_row service.iclock in
    let new =
      completed no_iso
        (get_user_info offline (strip morning_row.user_id) service.iclock).0
        morning_row in
    (is_latest_first no_iso s'.punches ≡ true)
    × (all (is_kept no_iso 100) s'.punches ≡ true)
    × (count_by all_rows s'.punches
        ≡ count_by (λ q. all_rows q && is_kept no_iso 100 q) (new ∷ service.iclock.punches))
    × (s'.saved_punches ≡ (if offline.can_write then s'.punches else service.iclock.saved_punches))
broadcast_punch-is_latest_first_example =
    broadcast_punch-is_latest_first no_iso offline 100 morning_row service.iclock all_rows

parse_userinfo-renamed_by_example :
    let s' = parse_userinfo offline user_table service.iclock in
    (Dict.get s'.users pin_102
      ≡ info_or
          (Dict.get service.iclock.users pin_102)
          (last_named pin_102 (data_lines user_table)))
    × (s'.punches ≡ map (renamed_by (data_lines user_table)) service.iclock.punches)
parse_userinfo-renamed_by_example =
    parse_userinfo-renamed_by offline user_table pin_102 service.iclock

parse_attlog-data_lines_example :
    (map
        (λ (p : PunchRow). p.raw)
        (parse_attlog offline (codes "2026-01-31 12:00:00") push.body serial_1 service.iclock).0
      ≡ data_lines push.body)
    × (map fields
          (parse_attlog offline (codes "2026-01-31 12:00:00") push.body serial_1 service.iclock).0
        ≡ map (fields_of (codes "2026-01-31 12:00:00")) (data_lines push.body))
    × (length
          (parse_attlog offline (codes "2026-01-31 12:00:00") push.body serial_1 service.iclock).0
        ≤ length push.body)
parse_attlog-data_lines_example =
    parse_attlog-data_lines offline (codes "2026-01-31 12:00:00") push.body serial_1 service.iclock

fields_of-tab_line_example : fields_of [] (tab_line punch_fields) ≡ punch_fields
unfolding strip lstrip rstrip is_space has_code includes upper upper_code startswith
fields_of-tab_line_example =
    fields_of-tab_line [] punch_fields (refl, refl, refl) (refl, refl, refl) (refl, refl, refl)
      (refl, refl, refl) (refl, refl, refl) refl refl refl

sync_punches-all_new_example :
    let kept = map row_key (discover offline [] service.iclock).1.punches in
    let taken =
      map row_key
        (sync_punches no_iso offline 100 serial_1 [] (record_9 ∷ record_9 ∷ []) service.iclock).0 in
    (all_new kept taken ≡ true)
    × ((is_known (record_key record_9) kept || is_known (record_key record_9) taken) ≡ true)
unfolding any same
sync_punches-all_new_example =
    sync_punches-all_new no_iso offline 100 serial_1 [] (record_9 ∷ record_9 ∷ []) service.iclock
      (record_key record_9) refl
