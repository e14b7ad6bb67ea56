-- ===== src/Router/Responses.antt =====
-- The responses of both routers.
use pumo_bio_metric.Text.{Text}
use pumo_bio_metric.Router.Json.{Json}
use pumo_bio_metric.Router.Engine.{Engine}
use pumo_bio_metric.Router.Proper.{IsProper}
use pumo_bio_metric.Router.Routes.{World, Request, serve}
use pumo_bio_metric.Router.Statuses.{content_status, serve-IsProper}
use pumo_bio_metric.Router.Staff.{Staff, StaffRequest, serve_staff}
use pumo_bio_metric.Router.Staff.Refusals.{staff_status, serve_staff-IsProper}

-- For every request to the routes of migration and of the employees: if the body is refused, or an exception
-- leaves the route while the body is read, the readers, the table of users and the directory are as they
-- were; a refusal has the status 400. Any other response has 200 for a result that says `ok`, for a run all
-- of whose results do, for an employee who is found, for the lists and for the reset; and else 207 for a run,
-- 500 for a transfer without a result, 404 for an employee who is not found, and 400 for anything else.
pub responses-IsProper :
    (E : Engine) (S : Staff) (repr : Json → Text) (q : Request) (w : World E) (p : StaffRequest)
    (s : S.State)
    → IsProper content_status w (serve E repr q w)
      × IsProper staff_status s (serve_staff S repr p s)
responses-IsProper E S repr q w p s = (serve-IsProper E repr q w, serve_staff-IsProper S repr p s)
