-- ===== src/Router/Kept.antt =====
-- An invariant of the readers that every call of the engine keeps is kept by every request.
use pumo_bio_metric.Prelude.{
  ◌≡◌, refl, Bool, true, false, List, [], ◌∷◌, if◌then◌else◌, Result, ok, err, Bool-cases, inl, inr,
  any,
}
use pumo_bio_metric.Text.{Text, same}
use pumo_bio_metric.Dict.{Dict}
use pumo_bio_metric.Device.{DeviceInfo}
use pumo_bio_metric.Sim.{SimState, reset_simulation_state, delete_batch_simulated}
use pumo_bio_metric.Sim.State.{IsWellFormed}
use pumo_bio_metric.Sim.Users.{create_device_user-IsWellFormed}
use pumo_bio_metric.Sim.Delete.{delete_device_user-IsWellFormed}
use pumo_bio_metric.Sim.Batch.{delete_each-IsWellFormed}
use pumo_bio_metric.Migration.{MigrationResult, is_ok}
use pumo_bio_metric.Migration.Each.{run_migration-IsWellFormed}
use pumo_bio_metric.Router.Json.{Json}
use pumo_bio_metric.Router.Body.{Stop, handle}
use pumo_bio_metric.Router.Engine.{
  Engine, CreateCall, ReaderCall, MigrationCall, DeleteCall, PinCall, TransferCall,
}
use pumo_bio_metric.Router.Calls.{Doomed, many, one}
use pumo_bio_metric.Router.Routes.{
  World, Request, create_user, test_connection, users, run, delete, delete_batch, resolve_pin,
  transfer_user, list_devices, reset_sim, Handled, serve, serve_all, call_create_user,
  call_test_connection, call_users, call_resolve_pin, call_run, call_delete_batch, call_delete,
  after_transfer, call_transfer_user, migration_call,
}
use pumo_bio_metric.Router.Both.{both, State}

pub record IsKept (E : Engine) (P : E.State → Type 0) : Type 0 where
  pub create : (c : CreateCall) (s : E.State) → P s → P (E.create_device_user c s).1
  pub probe : (c : ReaderCall) (s : E.State) → P s → P (E.probe_device_connection c s).1
  pub fetch : (c : ReaderCall) (s : E.State) → P s → P (E.fetch_device_users c s).1
  pub migrate : (c : MigrationCall) (s : E.State) → P s → P (E.run_migration c s).1
  pub delete_one : (c : DeleteCall Text) (s : E.State) → P s → P (E.delete_device_user c s).1
  pub delete_many :
      (c : DeleteCall (List Text)) (s : E.State) → P s → P (E.delete_batch_device_users c s).1
  pub resolve : (c : PinCall) (s : E.State) → P s → P (E.resolve_target_pin c s).1
  pub reset : (s : E.State) → P s → P (E.reset_simulation_state s)

module _ (E : Engine) (P : E.State → Type 0) (k : IsKept E P) where
  handle-kept :
      {C : Type 0} (o : Result Stop C) (call : C → World E → Handled E) (w : World E)
      → ((c : C) → P (call c w).1.readers)
      → P w.readers
      → P (handle o call w).1.readers
  unfolding handle
  handle-kept (err e) call w h p = p
  handle-kept (ok c) call w h p = h c

  after_transfer-readers :
      (works : Bool) (c : TransferCall) (rs : List MigrationResult) (w : World E)
      → (after_transfer E works c rs w).1.readers ≡ w.readers
  unfolding after_transfer
  after_transfer-readers works c [] w = refl
  after_transfer-readers works c (r ∷ rs) w = elim (Bool-cases (is_ok r)) [
    | inl e ↦ rw e refl
    | inr e ↦ rw e refl
  ]

  call_delete-kept : (c : Doomed) (w : World E) → P w.readers → P (call_delete E c w).1.readers
  unfolding call_delete call_delete_batch
  call_delete-kept (many c) w p = k.delete_many c w.readers p
  call_delete-kept (one c) w p = k.delete_one c w.readers p

  serve-kept :
      (repr : Json → Text) (q : Request) (w : World E)
      → P w.readers
      → P (serve E repr q w).1.readers
  unfolding serve call_create_user call_test_connection call_users call_resolve_pin call_run
      call_delete_batch call_transfer_user
  serve-kept repr (create_user b) w p =
      handle-kept _ (call_create_user E) w (λ c. k.create c w.readers p) p
  serve-kept repr (test_connection b) w p =
      handle-kept _ (call_test_connection E) w (λ c. k.probe c w.readers p) p
  serve-kept repr (users b) w p = handle-kept _ (call_users E) w (λ c. k.fetch c w.readers p) p
  serve-kept repr (run b) w p = handle-kept _ (call_run E) w (λ c. k.migrate c w.readers p) p
  serve-kept repr (delete b) w p = handle-kept _ (call_delete E) w (λ c. call_delete-kept c w p) p
  serve-kept repr (delete_batch b) w p =
      handle-kept _ (call_delete_batch E) w (λ c. k.delete_many c w.readers p) p
  serve-kept repr (transfer_user works b) w p =
      handle-kept _ (call_transfer_user E works) w
        (λ c. rw (after_transfer-readers works c _ _) (k.migrate (migration_call c) w.readers p)) p
  serve-kept repr (resolve_pin b) w p =
      handle-kept _ (call_resolve_pin E) w (λ c. k.resolve c w.readers p) p
  serve-kept repr (list_devices saved) w p = p
  serve-kept repr reset_sim w p = k.reset w.readers p

  pub serve_all-kept :
      (repr : Json → Text) (qs : List Request) (w : World E)
      → P w.readers
      → P (serve_all E repr qs w).readers
  unfolding serve_all
  serve_all-kept repr [] w p = p
  serve_all-kept repr (q ∷ qs) w p = serve_all-kept repr qs _ (serve-kept repr q w p)

reset-IsWellFormed : IsWellFormed reset_simulation_state
unfolding any same
reset-IsWellFormed = record {
  source = (refl, refl, (refl, refl, (refl, refl, tt)));
  target = (refl, refl, tt);
}

module _ (registry : Dict DeviceInfo) (names : Dict Text) (hardware : Engine) where
  abbrev pub HasDistinctUsers : State registry names hardware → Type 0
  HasDistinctUsers s = IsWellFormed s.0

  if-kept :
      {C : Type 0} (simulate : Bool) (x y : C × State registry names hardware)
      → HasDistinctUsers x.1
      → HasDistinctUsers y.1
      → HasDistinctUsers (if simulate then x else y).1
  if-kept true x y h k = h
  if-kept false x y h k = k

  batch-IsWellFormed :
      (device_id : Text) (pins : List Text) (only : Bool) (s : SimState)
      → IsWellFormed s
      → IsWellFormed (delete_batch_simulated registry device_id pins only s).1
  unfolding delete_batch_simulated
  batch-IsWellFormed device_id pins only s = delete_each-IsWellFormed registry device_id only pins s

  both-kept : IsKept (both registry names hardware) HasDistinctUsers
  both-kept = record {
    create =
        λ c s w. if-kept c.link.simulate _ _ (create_device_user-IsWellFormed registry _ s.0 w) w;
    probe = λ c s w. if-kept c.link.simulate _ _ w w;
    fetch = λ c s w. if-kept c.link.simulate _ _ w w;
    migrate =
        λ c s w. if-kept c.simulate _ _ (run_migration-IsWellFormed registry _ _ _ _ _ s.0 w).0 w;
    delete_one = λ c s w.
        if-kept c.link.simulate _ _ (delete_device_user-IsWellFormed registry _ _ _ s.0 w) w;
    delete_many = λ c s w. if-kept c.link.simulate _ _ (batch-IsWellFormed _ _ _ s.0 w) w;
    resolve = λ c s w. if-kept c.link.simulate _ _ w w;
    reset = λ s w. reset-IsWellFormed;
  }

  -- Whatever requests come, in whatever order, simulated or not, the users of each simulated reader keep
  -- distinct PINs and distinct uids, if they have them at first.
  pub serve_all-HasDistinctUsers :
      (repr : Json → Text) (qs : List Request) (w : World (both registry names hardware))
      → HasDistinctUsers w.readers
      → HasDistinctUsers (serve_all (both registry names hardware) repr qs w).readers
  serve_all-HasDistinctUsers =
      serve_all-kept (both registry names hardware) HasDistinctUsers both-kept
