-- ===== src/Router/Statuses.antt =====
-- The statuses of the routes of app/router/migration.py, and what a request that stops leaves behind.
use pumo_bio_metric.Prelude.{ℕ, refl, Bool, List, [], ◌∷◌, all, if◌then◌else◌}
use pumo_bio_metric.Migration.{MigrationResult, is_ok}
use pumo_bio_metric.Router.Json.{Json}
use pumo_bio_metric.Router.Body.{status}
use pumo_bio_metric.Router.Proper.{IsProper, handle-IsProper}
use pumo_bio_metric.Router.Engine.{Engine}
use pumo_bio_metric.Router.Calls.{Doomed, many, one}
use pumo_bio_metric.Router.Replies.{
  Content, result, deletion, summary, one_result, no_result, devices, reset_done,
}
use pumo_bio_metric.Router.Routes.{
  World, Request, create_user, test_connection, users, run, delete, delete_batch, resolve_pin,
  transfer_user, list_devices, reset_sim, serve, call_create_user, call_test_connection, call_users,
  call_resolve_pin, call_run, call_delete_batch, call_delete, after_transfer, call_transfer_user,
}

-- The status that goes with a content: 200 for a result that says `ok`, for a run all of whose
-- results do, for the list of readers and for the reset; else 207 for a run, 500 where there is no
-- result, and 400 for anything else.
abbrev pub content_status : {E : Engine} → Content E → ℕ
content_status {E} (result r) = if E.is_ok r then 200 else 400
content_status {E} (deletion r success) = if E.is_ok r then 200 else 400
content_status (summary b n rs) = if all is_ok rs then 200 else 207
content_status (one_result r) = if is_ok r then 200 else 400
content_status no_result = 500
content_status (devices ds) = 200
content_status reset_done = 200

module _ (E : Engine) where
  after_transfer-IsProper :
      (works : Bool) (c : _) (rs : List MigrationResult) (w w' : World E)
      → IsProper content_status w (after_transfer E works c rs w')
  unfolding after_transfer status
  after_transfer-IsProper works c [] w w' = refl
  after_transfer-IsProper works c (r ∷ rs) w w' = refl

  call_delete-IsProper : (c : Doomed) (w : World E) → IsProper content_status w (call_delete E c w)
  unfolding call_delete call_delete_batch status
  call_delete-IsProper (many c) w = refl
  call_delete-IsProper (one c) w = refl

  -- For every request: if the body is refused, or an exception leaves the route while the body is read, the
  -- readers and the table of users are as they were, with the status 400 for a refusal. Any other response
  -- has the status that goes with its content.
  pub serve-IsProper :
      (repr : Json → _) (q : Request) (w : World E) → IsProper content_status w (serve E repr q w)
  unfolding serve status call_create_user call_test_connection call_users call_resolve_pin call_run
      call_delete_batch call_transfer_user
  serve-IsProper repr (create_user b) w =
      handle-IsProper content_status _ (call_create_user E) w (λ c. refl)
  serve-IsProper repr (test_connection b) w =
      handle-IsProper content_status _ (call_test_connection E) w (λ c. refl)
  serve-IsProper repr (users b) w = handle-IsProper content_status _ (call_users E) w (λ c. refl)
  serve-IsProper repr (run b) w = handle-IsProper content_status _ (call_run E) w (λ c. refl)
  serve-IsProper repr (delete b) w =
      handle-IsProper content_status _ (call_delete E) w (λ c. call_delete-IsProper c w)
  serve-IsProper repr (delete_batch b) w =
      handle-IsProper content_status _ (call_delete_batch E) w (λ c. refl)
  serve-IsProper repr (transfer_user works b) w =
      handle-IsProper content_status _ (call_transfer_user E works) w
        (λ c. after_transfer-IsProper works c _ w _)
  serve-IsProper repr (resolve_pin b) w =
      handle-IsProper content_status _ (call_resolve_pin E) w (λ c. refl)
  serve-IsProper repr (list_devices saved) w = refl
  serve-IsProper repr reset_sim w = refl
