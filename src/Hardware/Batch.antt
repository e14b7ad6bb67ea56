-- ===== src/Hardware/Batch.antt =====
-- `delete_batch_device_users` on a hardware reader
use pumo_bio_metric.Prelude.{
  ℕ, Bool, true, false, not, ◌||◌, List, [], ◌∷◌, any, all, count_by, if◌then◌else◌, Option, none,
  some,
}
use pumo_bio_metric.Text.{Text, strip}
use pumo_bio_metric.Dict.{Dict}
use pumo_bio_metric.Device.{DeviceInfo, resolve_device}
use pumo_bio_metric.Sim.{override_ip}
use pumo_bio_metric.Hardware.{
  HwUser, target, disable, enable, refresh, delete_user, Driver, forgot, Hw, M, ◌>>=◌, ◌>>◌, pure,
  attempt, note, connect, run, get_users, quietly, close,
}
use pumo_bio_metric.Hardware.Migrate.{user_has, all_fids}

-- The result for one requested PIN.
pub record ItemResult : Type 0 where
  pub ok : Bool
  pub deleted : Bool
  pub only : Bool
  pub user_id : Text

pub record HwBatchReply : Type 0 where
  pub ok : Bool
  -- the run ended in the `except` clause, with the error as its reply
  pub failed : Bool
  pub results : List ItemResult

-- `{str(u.user_id): u for u in users}.get(pin)`: the last user with the PIN
unfoldable pub last_user : Text → List HwUser → Option HwUser
last_user pin [] = none
last_user pin (u ∷ us) = last_of (last_user pin us) (user_has pin u) u
  where
    last_of : Option HwUser → Bool → HwUser → Option HwUser
    last_of (some v) b u = some v
    last_of none true u = some u
    last_of none false u = none

abbrev pub item : Bool → Bool → Bool → Text → ItemResult
item done deleted only pin = record { ok = done; deleted = deleted; only = only; user_id = pin }

-- The result of a deletion that raised, or did not.
abbrev pub removed : Text → Option (Unit {0}) → ItemResult
removed pin none = item false false false pin
removed pin (some _) = item true true false pin

abbrev pub listed_on : List HwUser → ItemResult → Bool
listed_on remaining r = any (user_has r.user_id) remaining

-- What the check of the users that remain makes of a result.
unfoldable pub checked_item : Bool → List HwUser → ItemResult → ItemResult
checked_item only remaining r =
    if only || not r.deleted || not (listed_on remaining r)
    then r
    else record r { ok = false; deleted = false }

unfoldable pub checked : Bool → List HwUser → List ItemResult → List ItemResult
checked only remaining [] = []
checked only remaining (r ∷ rs) = checked_item only remaining r ∷ checked only remaining rs

unfoldable pub deleted_count : HwBatchReply → ℕ
deleted_count reply = count_by (λ (r : ItemResult). r.deleted) reply.results

abbrev pub replied : Option (Unit {0}) → List ItemResult → HwBatchReply
replied none rs = record { ok = false; failed = true; results = rs }
replied (some _) rs = record {
  ok = all (λ (r : ItemResult). r.ok) rs;
  failed = false;
  results = rs;
}

module _ (D : Driver) (sn : Text) (only : Bool) where
  unfoldable pub wipe_each : HwUser → Text → List ℕ → M D (Unit {0})
  wipe_each u pin [] = pure tt
  wipe_each u pin (fid ∷ fids) = do
    attempt (quietly D (D.delete_template target u.uid fid pin))
    wipe_each u pin fids

  unfoldable pub delete_item : Text → Option HwUser → M D ItemResult
  delete_item pin none = pure (item true false false pin)
  delete_item pin (some u) =
      if only
      then (do wipe_each u pin all_fids; pure (item true true true pin))
      else (do done ← attempt (run D target (delete_user u.uid pin)); pure (removed pin done))

  unfoldable pub delete_items : List HwUser → List Text → M D (List ItemResult)
  delete_items users [] = pure []
  delete_items users (uid ∷ uids) = do
    r ← delete_item (strip uid) (last_user (strip uid) users)
    rs ← delete_items users uids
    pure (r ∷ rs)

  -- `_remove_user_metadata` for the users that are gone
  unfoldable pub forget_gone : List HwUser → List ItemResult → M D (Unit {0})
  forget_gone remaining [] = pure tt
  forget_gone remaining (r ∷ rs) = do
    if only || not r.deleted || listed_on remaining r then pure tt else note (forgot sn r.user_id)
    forget_gone remaining rs

  -- The rest of the `try` statement, from the users that remain, or from what raised before it.
  unfoldable pub settle : List ItemResult → Option (List HwUser) → M D HwBatchReply
  settle rs none = pure (replied none rs)
  settle rs (some remaining) = do
    forget_gone remaining rs
    done ← attempt (run D target enable)
    pure (replied done (checked only remaining rs))

  unfoldable pub batch_body : Text → ℕ → List Text → M D HwBatchReply
  batch_body ip port uids = do
    connect D target ip port
    run D target disable
    users ← get_users D target
    rs ← delete_items users uids
    remaining ← attempt (run D target refresh >> get_users D target)
    settle rs remaining

  abbrev pub or_failed : Option HwBatchReply → HwBatchReply
  or_failed none = replied none []
  or_failed (some reply) = reply

  unfoldable pub batch_run : Text → ℕ → List Text → Hw D → HwBatchReply × Hw D
  batch_run ip port uids h =
      let (reply, h') = batch_body ip port uids (record h { log = [] }) in
      (or_failed reply, (close D target h').1)

-- `delete_batch_device_users(..., simulate=False)`; without pyzk, `none`
unfoldable pub delete_batch_real :
    (D : Driver)
    → Bool
    → Dict DeviceInfo
    → ℕ
    → Option Text
    → Text
    → List Text
    → Bool
    → Hw D
    → Option HwBatchReply × Hw D
delete_batch_real D has_pyzk registry port ip device_id [] only h =
    (some (record { ok = true; failed = false; results = [] }), record h { log = [] })
delete_batch_real D has_pyzk registry port ip device_id (uid ∷ uids) only h =
    let d = override_ip ip (resolve_device registry port device_id) in
    let (reply, h') = batch_run D d.sn only d.ip d.port (uid ∷ uids) h in
    if has_pyzk then (some reply, h') else (none, record h { log = [] })
