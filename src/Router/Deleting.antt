-- ===== src/Router/Deleting.antt =====
-- `/delete` on the simulated readers, from the body to the users that are left.
use pumo_bio_metric.Prelude.{
  ℕ, map, ◌≡◌, refl, Bool, true, ◌&&◌, List, [], ◌∷◌, if◌then◌else◌, some, ok, arith, any,
}
use pumo_bio_metric.Text.{Text, same, codes}
use pumo_bio_metric.Dict.{Dict}
use pumo_bio_metric.Device.{DeviceInfo, SimRef, resolve_device}
use pumo_bio_metric.Sim.{sim_device}
use pumo_bio_metric.Sim.State.{same_ref}
use pumo_bio_metric.Sim.Users.{user_at}
use pumo_bio_metric.Sim.Delete.{after_delete, delete_device_user-user_at, delete_device_user-ok}
use pumo_bio_metric.Sim.Batch.{delete_batch-user_at}
use pumo_bio_metric.Router.Json.{Json, Members, object, text, get}
use pumo_bio_metric.Router.Reading.{read_delete_batch-characters}
use pumo_bio_metric.Router.Body.{read_body, status, handle}
use pumo_bio_metric.Router.Engine.{Engine, Link, DeleteCall}
use pumo_bio_metric.Router.Calls.{Doomed, many, one, read_delete, read_delete_batch}
use pumo_bio_metric.Router.Routes.{
  World, delete, delete_batch, serve, call_delete, call_delete_batch, Handled,
}
use pumo_bio_metric.Router.Both.{both, reply_ok}

-- The PINs, the reader and the options of a deletion.
abbrev pub pins_of : Doomed → List Text
pins_of (many c) = c.who
pins_of (one c) = c.who ∷ []

abbrev pub device_of : Doomed → Text
device_of (many c) = c.device_id
device_of (one c) = c.device_id

abbrev pub only_of : Doomed → Bool
only_of (many c) = c.biometrics_only
only_of (one c) = c.biometrics_only

abbrev pub link_of : Doomed → Link
link_of (many c) = c.link
link_of (one c) = c.link

module _ (registry : Dict DeviceInfo) (names : Dict Text) (hardware : Engine) where
  -- The answer is 200; the PINs find what a deletion leaves; nothing else has changed.
  pub record IsDeleted (d : Doomed) (dev : SimRef) (w : World (both registry names hardware))
      (h : Handled (both registry names hardware)) : Type 0 where
    pub status_ok : status h.0 ≡ some 200
    pub left :
        (a : SimRef) (q : Text)
        → user_at a q h.1.readers.0 ≡ (
            if same_ref dev a && any (λ p. same p q) (pins_of d)
            then after_delete (only_of d) (user_at a q w.readers.0)
            else user_at a q w.readers.0)
    pub hardware_kept : h.1.readers.1 ≡ w.readers.1
    pub table_kept : h.1.users ≡ w.users

  call_delete-IsDeleted :
      (d : Doomed) (dev : SimRef) (w : World (both registry names hardware))
      → (link_of d).simulate ≡ true
      → sim_device (resolve_device registry 4370 (device_of d)) ≡ some dev
      → IsDeleted d dev w (call_delete (both registry names hardware) d w)
  unfolding call_delete call_delete_batch status reply_ok any
  call_delete-IsDeleted (many c) dev w h e = rw h record {
    status_ok = refl;
    left = λ a q.
        (delete_batch-user_at registry c.device_id c.biometrics_only c.who w.readers.0 dev a q e).0;
    hardware_kept = refl;
    table_kept = refl;
  }
  call_delete-IsDeleted (one c) dev w h e =
      let (r, done) =
        delete_device_user-ok registry c.device_id c.who c.biometrics_only w.readers.0 dev e in
      rw h record {
        status_ok = rw done refl;
        left = λ a q. ground (
          arith,
          (delete_device_user-user_at registry c.device_id c.who c.biometrics_only w.readers.0 dev a
              q e).1,
        );
        hardware_kept = refl;
        table_kept = refl;
      }

  -- A request to `/delete` whose body is accepted, with `simulate`, on a reader that the simulator has: the
  -- answer has the status 200, each PIN that the body names finds nobody afterwards, or after a wipe of the
  -- fingerprints alone the same user without fingerprints, and no other PIN, no other reader and no
  -- hardware is touched, nor the table of users.
  pub delete-IsDeleted :
      (repr : Json → Text) (ms : Members) (d : Doomed) (dev : SimRef)
      (w : World (both registry names hardware))
      → read_delete repr ms ≡ ok d
      → (link_of d).simulate ≡ true
      → sim_device (resolve_device registry 4370 (device_of d)) ≡ some dev
      → IsDeleted d dev w (serve (both registry names hardware) repr (delete (some (object ms))) w)
  unfolding serve handle read_body
  delete-IsDeleted repr ms d dev w r h e = rw r (call_delete-IsDeleted d dev w h e)

  -- A request to `/delete-batch` that is accepted, with `simulate`, on a reader that the simulator has, and
  -- with a text that is not empty under `userIds`: the answer has the status 200, and it is the users whose
  -- PIN is one character of the text that are deleted, and nobody else.
  pub delete_batch-characters :
      (repr : Json → Text) (ms : Members) (n : ℕ) (s : Text) (c : DeleteCall (List Text))
      (dev : SimRef) (w : World (both registry names hardware))
      → get ms (codes "userIds") ≡ text (n ∷ s)
      → read_delete_batch repr ms ≡ ok c
      → c.link.simulate ≡ true
      → sim_device (resolve_device registry 4370 c.device_id) ≡ some dev
      → IsDeleted
          (many (record c { who = map (λ e. e ∷ []) (n ∷ s) }))
          dev
          w
          (serve (both registry names hardware) repr (delete_batch (some (object ms))) w)
  unfolding serve handle read_body call_delete
  delete_batch-characters repr ms n s c dev w g r h e =
      let same_who = read_delete_batch-characters repr ms n s c g r in
      rw (r, ← same_who) (call_delete-IsDeleted (many c) dev w h e)
