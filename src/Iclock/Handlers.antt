-- ===== src/Iclock/Handlers.antt =====
-- The routes that the readers call: `mark_seen`, `cdata_handler` with `parse_oplog`,
-- `getrequest_handler`, `devicecmd_handler`, `fdata_handler` and `ping_handler`.
pub mod Routes
use pumo_bio_metric.Prelude.{
  ℕ, Bool, true, false, ◌||◌, List, [], ◌∷◌, ◌++◌, any, map, leb, length, if◌then◌else◌, Option,
  none, some,
}
use pumo_bio_metric.Text.{Text, codes, strip, upper, is_empty, startswith}
use pumo_bio_metric.Text.Split.{includes, split_on}
use pumo_bio_metric.Dict
use pumo_bio_metric.Dict.{Dict}
use pumo_bio_metric.Device.{DeviceInfo}
use pumo_bio_metric.Commands.{Commands, clean_sn, queue_device_cmd, next_command}
use pumo_bio_metric.Sync.Liveness
use pumo_bio_metric.Sync.Liveness.{Liveness}
use pumo_bio_metric.Iclock.{UserInfo, PunchRow, Iclock, Outside}
use pumo_bio_metric.Iclock.Lines.{data_lines}
use pumo_bio_metric.Iclock.Names.{get_user_info}
use pumo_bio_metric.Iclock.Attlog.{parse_attlog}
use pumo_bio_metric.Iclock.Userinfo.{parse_userinfo}
use pumo_bio_metric.Iclock.History.{Iso, completed, broadcast_punch}

-- What the handlers read of a request.
pub record Request : Type 0 where
  pub is_get : Bool
  pub sn : Option Text
  pub table : Option Text
  pub client_ip : Option Text
  pub body : Text

-- `LAST_SYNC_TIMES`, `DEVICE_REGISTRY` without `lastSeen`, the queue of commands, the state of
-- sync/liveness.py, what `ingest` is given, and the readers for which a
-- `auto_sync_device_users_bg` is started.
pub record Service : Type 0 where
  pub last_sync : Dict ℕ
  pub registry : Dict DeviceInfo
  pub commands : Commands
  pub liveness : Liveness
  pub iclock : Iclock
  pub handed : List (List PunchRow)
  pub background : List Text

-- The service's settings and its clocks at the request: the time of `datetime.now()` in seconds
-- and as text, that of `time.time()`, and the monotonic one.
pub record Now : Type 0 where
  pub seconds : ℕ
  pub text : Text
  pub stamp : ℕ
  pub tick : ℕ
  pub active : Bool
  pub heartbeat : ℕ

abbrev pub given : Option Text → Text
given none = []
given (some t) = t

abbrev pub registered_as : Text → Option Text → Option DeviceInfo → DeviceInfo
registered_as sn ip none = record {
  sn = sn;
  ip = if is_empty (given ip) then codes "127.0.0.1" else given ip;
  port = some 4370;
  name = some (codes "eSSL Reader (" ++ (sn ++ codes ")"));
}
registered_as sn ip (some d) = if is_empty (given ip) then d else record d { ip = given ip }

abbrev pub register : Text → Option Text → Dict DeviceInfo → Dict DeviceInfo
register sn ip reg =
    if is_empty sn then reg else Dict.put reg sn (registered_as sn ip (Dict.get reg sn))

-- `mark_seen`
unfoldable pub mark_seen : Now → Text → Option Text → Bool → Service → Service
mark_seen t sn ip force s = if is_empty sn then s else record s {
  last_sync = Dict.put s.last_sync (clean_sn sn) t.stamp;
  registry = register (clean_sn sn) ip s.registry;
  liveness =
      Liveness.mark_seen t.active t.heartbeat (some (clean_sn sn)) ip force t.tick s.liveness;
}

abbrev pub query_users : Text → Service → Service
query_users sn s = record s {
  commands = (queue_device_cmd sn (codes "DATA QUERY USERINFO") s.commands).1;
}

abbrev pub start_background : Text → Service → Service
start_background sn s = record s { background = s.background ++ sn ∷ [] }

-- The options that a reader gets for its handshake.
unfoldable pub handshake : Text → Text
handshake sn =
    codes "GET OPTION FROM: "
    ++ (sn
        ++ codes
            "\nStamp=0\nOpStamp=0\nPhotoStamp=0\nErrorDelay=10\nDelay=5\nTransTimes=00:00;14:05\nTransInterval=1\nTransFlag=1111000000\nRealtime=1\nRealTime=1\nEncrypt=0\nServerVersion=3.0.1\nPushVersion=3.2.1\nPushOptionsFlag=1\nPushProtVer=3.2.1")

abbrev pub first_line : List Text → Text
first_line [] = []
first_line (l ∷ _) = l

-- The table by the first line of the body.
unfoldable pub detected : Text → Text
detected body =
    let l = upper (strip (first_line (split_on 10 body))) in
    if includes (codes "ATTLOG") l
    then codes "ATTLOG"
    else if includes (codes "OPERLOG") l || includes (codes "OPLOG") l
    then codes "OPERLOG"
    else if includes (codes "RTLOG") l
    then codes "RTLOG"
    else codes "ATTLOG"

unfoldable pub effective_table : Request → Text
effective_table r = let t = upper (given r.table) in if is_empty t then detected r.body else t

pub data Route : Type 0 where
  operations users punches : Route

unfoldable pub route : Text → Route
route t =
    if includes (codes "OPERLOG") t || includes (codes "OPLOG") t
    then operations
    else if includes (codes "USERINFO") t || includes (codes "USER") t
    then users
    else punches

-- `parse_oplog` prints the lines and asks for the names of the operators.
abbrev pub operator : Outside → List Text → Iclock → Iclock
operator out [] s = s
operator out (pin ∷ rest) s = if leb 2 (length rest) then (get_user_info out (strip pin) s).1 else s

unfoldable pub parse_oplog : Outside → List Text → Iclock → Iclock
parse_oplog out [] s = s
parse_oplog out (line ∷ lines) s = parse_oplog out lines (operator out (split_on 9 line) s)

-- The user of a punch is not in the cache, or only with a made up name.
abbrev pub is_unknown : Option UserInfo → Bool
is_unknown none = true
is_unknown (some u) = elim (u.name) [ some n ↦ startswith n (codes "User ") | none ↦ false ]

unfoldable pub has_unknown : Iclock → List PunchRow → Bool
has_unknown s = any (λ (p : PunchRow). is_unknown (Dict.get s.users (strip p.user_id)))

-- `format_punch_banner` and `broadcast_punch` for each punch. The rows are changed in place: the
-- second result is what they hold afterwards.
unfoldable pub announce : Iso → Outside → ℕ → List PunchRow → Iclock → List PunchRow × Iclock
announce iso out now [] s = ([], s)
announce iso out now (p ∷ ps) s =
    let s' = (get_user_info out (strip p.user_id) s).1 in
    let new = completed iso (get_user_info out (strip p.user_id) s').0 p in
    let (rows, s'') = announce iso out now ps (broadcast_punch iso out now p s') in
    (new ∷ rows, s'')

abbrev pub ask_if : Bool → Text → Service → Service
ask_if true sn s = start_background sn (query_users sn s)
ask_if false sn s = s

unfoldable pub take_punches : Iso → Outside → Now → Text → List PunchRow → Service → Service
take_punches iso out t sn [] s = s
take_punches iso out t sn (p ∷ ps) s =
    let s' = ask_if (has_unknown s.iclock (p ∷ ps)) sn s in
    let (rows, ic) = announce iso out t.seconds (p ∷ ps) s'.iclock in
    record s' { iclock = ic; handed = s'.handed ++ rows ∷ [] }

abbrev pub routed : Iso → Outside → Now → Text → Text → Route → Service → Service
routed iso out t sn body operations s =
    query_users sn (record s { iclock = parse_oplog out (data_lines body) s.iclock })
routed iso out t sn body users s = record s { iclock = parse_userinfo out body s.iclock }
routed iso out t sn body punches s =
    let (rows, ic) = parse_attlog out t.text body sn s.iclock in
    take_punches iso out t sn rows (record s { iclock = ic })

-- `get_query_param_ci(request, "SN") or "DEFAULT"`
abbrev pub serial : Request → Text
serial r = if is_empty (given r.sn) then codes "DEFAULT" else given r.sn

-- `cdata_handler`
unfoldable pub cdata : Iso → Outside → Now → Request → Service → Text × Service
cdata iso out t r s =
    let sn = serial r in
    let s' = mark_seen t sn r.client_ip r.is_get s in
    if r.is_get
    then (handshake sn, start_background sn (query_users sn s'))
    else (codes "OK", routed iso out t sn r.body (route (effective_table r)) s')

-- `getrequest_handler`
unfoldable pub getrequest : Now → Request → Service → Text × Service
getrequest t r s =
    let s' = mark_seen t (given r.sn) r.client_ip false s in
    let (answer, c) = next_command (given r.sn) s'.commands in (answer, record s' { commands = c })

-- `devicecmd_handler`, `fdata_handler` and `ping_handler`, which print what they get
unfoldable pub acknowledge : Now → Request → Service → Text × Service
acknowledge t r s = (codes "OK", mark_seen t (given r.sn) r.client_ip false s)
