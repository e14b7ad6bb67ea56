-- ===== src/Hardware/Accounts.antt =====
-- `create_device_user` and `delete_device_user_real` on a hardware reader, with the commands that
-- they queue for it when the connection fails.
use pumo_bio_metric.Prelude.{
  ℕ, ◌+◌, ◌==◌, Bool, true, false, ◌||◌, List, [], ◌∷◌, ◌++◌, find?, any, length, ltb,
  if◌then◌else◌, Option, none, some, Result, ok, err,
}
use Prim.Native.Nat.{max}
use pumo_bio_metric.Text.{Text, codes, strip, is_empty}
use pumo_bio_metric.Text.Numbers.{str}
use pumo_bio_metric.Dict.{Dict}
use pumo_bio_metric.Device.{DeviceInfo, Resolved, resolve_device}
use pumo_bio_metric.Commands.{Commands, queue_device_cmd}
use pumo_bio_metric.Sim.{CreateRequest, override_ip}
use pumo_bio_metric.Hardware.{
  HwUser, target, disable, enable, refresh, set_user, delete_user, Driver, forgot, remembered, Hw,
  M, ◌>>=◌, ◌>>◌, pure, raise, attempt, note, connect, run, get_users, quietly, close,
}
use pumo_bio_metric.Hardware.Migrate.{user_has, all_fids}

-- Why a request ends without a reply of the reader.
pub data AccountError : Type 0 where
  id_and_name_required pin_too_long pyzk_missing user_exists : AccountError

-- A reply with `ok` true.
pub record AccountReply : Type 0 where
  -- `created` or `deleted`
  pub done : Bool
  pub queued : Bool
  pub biometrics_only : Bool
  pub templates_deleted : ℕ
  pub device : Text
  pub user_id : Text

abbrev pub direct : Text → Text → Bool → Bool → ℕ → AccountReply
direct sn pin done only n = record {
  done = done;
  queued = false;
  biometrics_only = only;
  templates_deleted = n;
  device = sn;
  user_id = pin;
}

abbrev pub queued_reply : Text → Text → Bool → AccountReply
queued_reply sn pin only = record {
  done = true;
  queued = true;
  biometrics_only = only;
  templates_deleted = 0;
  device = sn;
  user_id = pin;
}

-- Several commands for one reader, in order.
unfoldable pub queue_all : Text → List Text → Commands → Commands
queue_all sn [] s = s
queue_all sn (body ∷ bodies) s = queue_all sn bodies (queue_device_cmd sn body s).1

unfoldable pub max_uid : List HwUser → ℕ
max_uid [] = 0
max_uid (u ∷ us) = max u.uid (max_uid us)

-- `f"DATA UPDATE USERINFO PIN=..."`
abbrev pub update_command : CreateRequest → Text
update_command r =
    codes "DATA UPDATE USERINFO PIN="
    ++ (strip r.user_id
        ++ (codes "\tName="
            ++ (strip r.name
                ++ (codes "\tPri="
                    ++ (str (if r.privilege == 14 then 14 else 0)
                        ++ (codes "\tPasswd="
                            ++ (r.password
                                ++ (codes "\tCard=" ++ (str r.card ++ codes "\tGrp=1")))))))))

abbrev pub delete_command : Text → Text → Text
delete_command table pin = codes "DATA DELETE " ++ (table ++ (codes " PIN=" ++ strip pin))

-- The commands of the fallback of `delete_device_user_real`
abbrev pub delete_commands : Bool → Text → List Text
delete_commands only pin =
    if only
    then delete_command (codes "FINGERTMP") pin ∷ delete_command (codes "BIOPHOTO") pin ∷ []
    else delete_command (codes "USERINFO") pin
      ∷ delete_command (codes "USER") pin
      ∷ delete_command (codes "FINGERTMP") pin
      ∷ delete_command (codes "BIOPHOTO") pin
      ∷ []

abbrev pub is_deleted : Option Bool → Bool
is_deleted (some b) = b
is_deleted none = false

module _ (D : Driver) (d : Resolved) where
  abbrev pub new_hw_user : CreateRequest → ℕ → HwUser
  new_hw_user r uid = record {
    uid = uid;
    user_id = strip r.user_id;
    name = strip r.name;
    privilege = if r.privilege == 14 then 14 else 0;
    password = r.password;
    group_id = codes "1";
    card = r.card;
  }

  -- The profile that the reader lists after the write, or the `RuntimeError`.
  abbrev pub created_on : Text → Option HwUser → M D (Result AccountError AccountReply)
  created_on pin none = raise
  created_on pin (some u) = do note (remembered d.sn pin); pure (ok (direct d.sn pin true false 0))

  unfoldable pub create_user : CreateRequest → List HwUser → M D (Result AccountError AccountReply)
  create_user r users =
      if any (user_has (strip r.user_id)) users then pure (err user_exists) else (do
        run D target (set_user (new_hw_user r (max_uid users + 1)))
        run D target refresh
        seen ← get_users D target
        created_on (strip r.user_id) (find? (user_has (strip r.user_id)) seen))

  unfoldable pub create_body : CreateRequest → M D (Result AccountError AccountReply)
  create_body r = do
    connect D target d.ip d.port
    run D target disable
    users ← get_users D target
    create_user r users

  abbrev pub or_queue_create :
      CreateRequest
      → Option (Result AccountError AccountReply) × Hw D
      → Result AccountError AccountReply × Hw D
  or_queue_create r (some reply, h) = (reply, h)
  or_queue_create r (none, h) = (
    ok (queued_reply d.sn (strip r.user_id) false),
    record h { commands = queue_all d.sn (update_command r ∷ []) h.commands },
  )

  unfoldable pub create_run : CreateRequest → Hw D → Result AccountError AccountReply × Hw D
  create_run r h =
      let (reply, h') = or_queue_create r (create_body r (record h { log = [] })) in
      (reply, (close D target h').1)

  abbrev pub try_raw : Bool → Text → ℕ → M D (Option Bool)
  try_raw true pin fid = pure none
  try_raw false pin fid = attempt (quietly D (D.send_delete target pin fid))

  -- The two ways to delete a fingerprint, and how many fingers were deleted.
  unfoldable pub wipe_fingers : HwUser → Text → List ℕ → M D ℕ
  wipe_fingers u pin [] = pure 0
  wipe_fingers u pin (fid ∷ fids) = do
    first ← attempt (quietly D (D.delete_template target u.uid fid []))
    second ← try_raw (is_deleted first) pin fid
    n ← wipe_fingers u pin fids
    pure ((if is_deleted first || is_deleted second then 1 else 0) + n)

  -- `_remove_user_metadata`, unless only the fingerprints go
  abbrev pub forget : Text → Bool → M D (Unit {0})
  forget pin only = if only then pure tt else note (forgot d.sn pin)

  -- The check after a full deletion, on the users that the reader lists.
  abbrev pub deleted_on : Text → Bool → M D AccountReply
  deleted_on pin still_there =
      if still_there
      then raise
      else (do note (forgot d.sn pin); run D target enable; pure (direct d.sn pin true false 0))

  abbrev pub delete_profile : Text → HwUser → M D AccountReply
  delete_profile pin u = do
    run D target (delete_user u.uid pin)
    run D target refresh
    remaining ← get_users D target
    deleted_on pin (any (user_has pin) remaining)

  abbrev pub wipe_profile : Text → HwUser → M D AccountReply
  wipe_profile pin u = do
    n ← wipe_fingers u pin all_fids
    run D target refresh
    run D target enable
    pure (direct d.sn pin true true n)

  unfoldable pub delete_found : Text → Bool → Option HwUser → M D AccountReply
  delete_found pin only none = do
    forget pin only
    run D target enable
    pure (direct d.sn pin false false 0)
  delete_found pin only (some u) = if only then wipe_profile pin u else delete_profile pin u

  unfoldable pub delete_body : Text → Bool → M D AccountReply
  delete_body pin only = do
    connect D target d.ip d.port
    run D target disable
    users ← get_users D target
    delete_found pin only (find? (user_has pin) users)

  unfoldable pub or_queue_delete : Text → Bool → Option AccountReply × Hw D → AccountReply × Hw D
  unfolding pure note
  or_queue_delete pin only (some reply, h) = (reply, h)
  or_queue_delete pin only (none, h) = (
    queued_reply d.sn (strip pin) only,
    (forget pin only
        (record h { commands = queue_all d.sn (delete_commands only pin) h.commands })).1,
  )

  unfoldable pub delete_run : Text → Bool → Hw D → AccountReply × Hw D
  delete_run pin only h =
      let (reply, h') = or_queue_delete pin only (delete_body pin only (record h { log = [] })) in
      (reply, (close D target h').1)

-- `create_device_user(..., simulate=False)`
unfoldable pub create_device_user_real :
    (D : Driver)
    → Bool
    → Dict DeviceInfo
    → CreateRequest
    → Hw D
    → Result AccountError AccountReply × Hw D
create_device_user_real D has_pyzk registry r h =
    let d = override_ip r.ip_override (resolve_device registry r.port r.device_id) in
    if is_empty (strip r.user_id) || is_empty (strip r.name)
    then (err id_and_name_required, record h { log = [] })
    else if ltb 24 (length (strip r.user_id))
    then (err pin_too_long, record h { log = [] })
    else if has_pyzk
    then create_run D d r h
    else (err pyzk_missing, record h { log = [] })

-- `delete_device_user_real`
unfoldable pub delete_device_user_real :
    (D : Driver)
    → Bool
    → Dict DeviceInfo
    → ℕ
    → Option Text
    → Text
    → Text
    → Bool
    → Hw D
    → Result AccountError AccountReply × Hw D
delete_device_user_real D has_pyzk registry port ip device_id pin only h =
    let d = override_ip ip (resolve_device registry port device_id) in
    let (reply, h') = delete_run D d pin only h in
    if has_pyzk then (ok reply, h') else (err pyzk_missing, record h { log = [] })
