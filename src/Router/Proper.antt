-- ===== src/Router/Proper.antt =====
-- What every response of a route is like.
use pumo_bio_metric.Prelude.{ℕ, ◌≡◌, refl, Option, none, some, Result, ok, err}
use pumo_bio_metric.Router.Body.{Stop, refused, raised, Response, stopped, answered, status, handle}

-- A refusal has the status 400, and an exception that leaves the route has none.
abbrev pub stop_status : Stop → Option ℕ
stop_status refused = some 400
stop_status (raised e) = none

module _ {C W : Type 0} (status_for : C → ℕ) where
  -- Either the request stopped and left the world as it was, or the response has the status that goes with
  -- its content.
  abbrev pub IsProper : W → Response C × W → Type 0
  IsProper w (stopped e, w') = (status {C = C} (stopped e) ≡ stop_status e) × (w' ≡ w)
  IsProper w (answered n c, w') = status (answered n c) ≡ some (status_for c)

  pub handle-IsProper :
      {A : Type 0} (o : Result Stop A) (call : A → W → Response C × W) (w : W)
      → ((a : A) → IsProper w (call a w))
      → IsProper w (handle o call w)
  unfolding handle status
  handle-IsProper (err refused) call w h = (refl, refl)
  handle-IsProper (err (raised e)) call w h = (refl, refl)
  handle-IsProper (ok a) call w h = h a
