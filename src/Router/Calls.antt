-- ===== src/Router/Calls.antt =====
-- What each route of app/router/migration.py makes of the body before it calls anything.
use pumo_bio_metric.Prelude.{
  ℕ, Bool, false, not, ◌&&◌, ◌||◌, List, [], ◌∷◌, if◌then◌else◌, none, Result, ok, map, filter_by,
}
use pumo_bio_metric.Text.{Text, codes, same, strip, is_empty}
use pumo_bio_metric.Text.Numbers.{pos, same_ℤ}
use pumo_bio_metric.Text.Split.{split_on}
use pumo_bio_metric.Router.Json.{
  Json, Elements, no_elements, bool, number, text, array, Members, format, is_true, to_int, get,
  get_or, first_true, iterate, elements,
}
use pumo_bio_metric.Router.Body.{
  Stop, ◌>>=◌, ◌>>◌, lift, or_refuse, refuse_if, int_field, flag, or_none, text_field, word_field,
  ip_field,
}
use pumo_bio_metric.Router.Engine.{
  Link, CreateCall, ReaderCall, MigrationCall, DeleteCall, PinCall, TransferCall,
}

-- `port`, `timeout` and `simulate`, where nothing catches the `int` of the first two
unfoldable pub read_link : ℕ → Members → Result Stop Link
read_link seconds ms = do
  port ← lift (int_field (codes "port") 4370 ms)
  timeout ← lift (int_field (codes "timeout") seconds ms)
  ok (record { port = port; timeout = timeout; simulate = flag (codes "simulate") ms })

-- The keys that name the reader of a deletion.
abbrev device_keys : List Text
device_keys =
    codes "sn"
    ∷ codes "device_sn"
    ∷ codes "deviceSn"
    ∷ codes "target_sn"
    ∷ codes "targetSn"
    ∷ codes "source_sn"
    ∷ codes "sourceSn"
    ∷ codes "deviceId"
    ∷ codes "device_id"
    ∷ codes "ip"
    ∷ []

unfoldable pub biometrics_only : Members → Bool
biometrics_only ms = is_true (
    first_true (bool false) ms (codes "deleteBiometricsOnly" ∷ codes "delete_biometrics_only" ∷ []))

-- `[u.strip() for u in user_ids.split(",") if u.strip()]`
unfoldable pub split_ids : Text → List Text
split_ids s = filter_by (λ u. not (is_empty u)) (map strip (split_on b',' s))

-- What `/delete` deletes: users, or one.
pub data Doomed : Type 0 where
  many : DeleteCall (List Text) → Doomed
  one : DeleteCall Text → Doomed

module _ (repr : Json → Text) where
  -- `/create-user`, where an `int` that fails is a refusal
  unfoldable pub read_create_user : Members → Result Stop CreateCall
  read_create_user ms =
      let device_id =
        text_field repr (codes "sn" ∷ codes "deviceSn" ∷ codes "deviceId" ∷ codes "ip" ∷ []) ms in
      let user_id = text_field repr (codes "userId" ∷ codes "pin" ∷ []) ms in
      let name = text_field repr (codes "name" ∷ codes "userName" ∷ []) ms in
      let card = get_or (number (pos 0)) ms (codes "card") in
      do
        refuse_if (is_empty device_id || is_empty user_id || is_empty name)
        privilege ← or_refuse (int_field (codes "privilege") 0 ms)
        card ← or_refuse (to_int (if is_true card then card else number (pos 0)))
        port ← or_refuse (int_field (codes "port") 4370 ms)
        timeout ← or_refuse (int_field (codes "timeout") 8 ms)
        ok (record {
          device_id = device_id;
          user_id = user_id;
          name = name;
          privilege = privilege;
          password = format repr (first_true (text []) ms (codes "password" ∷ []));
          card = card;
          ip_override = or_none (text_field repr (codes "ip" ∷ []) ms);
          link = record { port = port; timeout = timeout; simulate = flag (codes "simulate") ms };
        })

  -- `/test-connection` and `/users`
  unfoldable pub read_reader : Members → Result Stop ReaderCall
  read_reader ms =
      let device_id = text_field repr (codes "sn" ∷ codes "ip" ∷ []) ms in
      do
        refuse_if (is_empty device_id)
        link ← read_link 5 ms
        ok (record { device_id = device_id; link = link })

  -- The `user_ids` of `/run`: a text is split at its commas. `run_migration` takes `str` of each value.
  unfoldable pub run_ids : Json → Result Stop (List Text)
  run_ids (text s) = ok (split_ids s)
  run_ids v = do us ← lift (iterate v); ok (map (format repr) us)

  -- `/run`
  unfoldable pub read_run : Members → Result Stop MigrationCall
  read_run ms =
      let source_id = text_field repr (codes "sourceSn" ∷ codes "sourceIp" ∷ []) ms in
      let target_id = text_field repr (codes "targetSn" ∷ codes "targetIp" ∷ []) ms in
      let user_ids = get_or (array no_elements) ms (codes "userIds") in
      do
        source_port ← lift (int_field (codes "sourcePort") 4370 ms)
        target_port ← lift (int_field (codes "targetPort") 4370 ms)
        timeout ← lift (int_field (codes "timeout") 8 ms)
        refuse_if (is_empty source_id || is_empty target_id)
        refuse_if (same source_id target_id && same_ℤ source_port target_port)
        refuse_if (not (is_true user_ids))
        ids ← run_ids user_ids
        ok (record {
          source_id = source_id;
          source_port = source_port;
          target_id = target_id;
          target_port = target_port;
          user_ids = ids;
          mode = word_field repr (codes "mode") (codes "copy") ms;
          simulate = flag (codes "simulate") ms;
          timeout = timeout;
          target_pin = none;
        })

  -- The last steps of `/delete`: a list of users, if there is one that is not empty, or one user.
  unfoldable pub read_doomed : Text → Text → Link → Members → Json → Result Stop Doomed
  read_doomed device_id user_id link ms (array (Elements.element u us)) = ok (
      many (record {
        device_id = device_id;
        who = map (format repr) (u ∷ elements us);
        biometrics_only = biometrics_only ms;
        ip_override = ip_field repr ms;
        link = link;
      }))
  read_doomed device_id user_id link ms _ = do
    refuse_if (is_empty user_id)
    ok (
        one (record {
          device_id = device_id;
          who = user_id;
          biometrics_only = biometrics_only ms;
          ip_override = ip_field repr ms;
          link = link;
        }))

  -- `/delete`
  unfoldable pub read_delete : Members → Result Stop Doomed
  read_delete ms =
      let device_id = text_field repr device_keys ms in
      let user_id =
        text_field repr
          (codes "userId"
            ∷ codes "user_id"
            ∷ codes "pin"
            ∷ codes "user_pin"
            ∷ codes "targetPin"
            ∷ codes "target_pin"
            ∷ [])
          ms in
      do
        refuse_if (is_empty device_id)
        link ← read_link 8 ms
        read_doomed device_id user_id link ms (
            first_true (get ms (codes "users")) ms
              (codes "userIds" ∷ codes "user_ids" ∷ codes "pins" ∷ []))

  -- `/delete-batch`, which goes through whatever stands under the key
  unfoldable pub read_delete_batch : Members → Result Stop (DeleteCall (List Text))
  read_delete_batch ms =
      let device_id = text_field repr device_keys ms in
      let user_ids =
        first_true (array no_elements) ms
          (codes "userIds" ∷ codes "user_ids" ∷ codes "pins" ∷ codes "users" ∷ []) in
      do
        link ← read_link 8 ms
        refuse_if (is_empty device_id)
        refuse_if (not (is_true user_ids))
        us ← lift (iterate user_ids)
        ok (record {
          device_id = device_id;
          who = map (format repr) us;
          biometrics_only = biometrics_only ms;
          ip_override = ip_field repr ms;
          link = link;
        })

  -- `/transfer-user`
  unfoldable pub read_transfer_user : Members → Result Stop TransferCall
  read_transfer_user ms =
      let source_id =
        text_field repr (codes "sourceSn" ∷ codes "sourceIp" ∷ codes "sourceDevice" ∷ []) ms in
      let target_id =
        text_field repr (codes "targetSn" ∷ codes "targetIp" ∷ codes "targetDevice" ∷ []) ms in
      let user_id = text_field repr (codes "userId" ∷ codes "user_id" ∷ []) ms in
      let target_pin = text_field repr (codes "targetPin" ∷ codes "targetUserId" ∷ []) ms in
      do
        source_port ← lift (int_field (codes "sourcePort") 4370 ms)
        target_port ← lift (int_field (codes "targetPort") 4370 ms)
        timeout ← lift (int_field (codes "timeout") 8 ms)
        refuse_if (is_empty source_id || is_empty target_id)
        refuse_if (is_empty user_id)
        ok (record {
          source_id = source_id;
          source_port = source_port;
          target_id = target_id;
          target_port = target_port;
          user_id = user_id;
          target_pin = or_none target_pin;
          mode = word_field repr (codes "mode") (codes "copy") ms;
          simulate = flag (codes "simulate") ms;
          timeout = timeout;
        })

  -- `/resolve-pin`
  unfoldable pub read_resolve_pin : Members → Result Stop PinCall
  read_resolve_pin ms =
      let target_id =
        text_field repr (codes "targetSn" ∷ codes "targetIp" ∷ codes "deviceId" ∷ []) ms in
      let preferred = text_field repr (codes "pin" ∷ codes "userId" ∷ []) ms in
      do
        link ← read_link 5 ms
        refuse_if (is_empty target_id || is_empty preferred)
        ok (record {
          target_id = target_id;
          preferred_pin = preferred;
          user_name = or_none (text_field repr (codes "userName" ∷ codes "name" ∷ []) ms);
          link = link;
        })
