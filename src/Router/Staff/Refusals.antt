-- ===== src/Router/Staff/Refusals.antt =====
-- The statuses of the routes of app/router/employees.py, and what they refuse.
use pumo_bio_metric.Prelude.{ℕ, ◌≡◌, refl, true, Option, none, some, err, if◌then◌else◌}
use pumo_bio_metric.Text.{Text, codes}
use pumo_bio_metric.Employee.{Employee}
use pumo_bio_metric.Router.Json.{Json, array, Elements, Members, is_true, get, type_error, to_int}
use pumo_bio_metric.Router.Body.{raised, status}
use pumo_bio_metric.Router.Proper.{IsProper, handle-IsProper}
use pumo_bio_metric.Router.Staff.{
  Staff, StaffContent, result, employees, branches, one_employee, not_found, StaffRequest, transfer,
  grant, revoke, offboard, delete, list_employees, list_branches, get_employee, serve_staff, reply,
  employee_reply, employee_key, read_transfer,
}

-- The status that goes with a content: 200 or 400 for a result, as it says `ok` or not, 404 for an
-- employee who is not found, and 200 for anything else.
abbrev pub staff_status : {S : Staff} → StaffContent S → ℕ
staff_status {S} (result r) = if S.is_ok r then 200 else 400
staff_status (employees es) = 200
staff_status (branches bs) = 200
staff_status (one_employee e) = 200
staff_status not_found = 404

module _ (S : Staff) where
  reply-IsProper : (s : S.State) (r : S.Reply × S.State) → IsProper staff_status s (reply S r)
  unfolding status
  reply-IsProper s (r, s') = refl

  employee_reply-IsProper :
      (o : Option Employee) (s : S.State) → IsProper staff_status s (employee_reply S o, s)
  unfolding status
  employee_reply-IsProper none s = refl
  employee_reply-IsProper (some e) s = refl

  -- For every request to the employees' routes: if the body is refused, or an exception leaves the route while the
  -- body is read, the directory and the readers are as they were, with the status 400 for a refusal. Any
  -- other response has the status that goes with its content.
  pub serve_staff-IsProper :
      (repr : Json → Text) (q : StaffRequest) (s : S.State)
      → IsProper staff_status s (serve_staff S repr q s)
  unfolding serve_staff status
  serve_staff-IsProper repr (transfer b) s =
      handle-IsProper staff_status _ _ s (λ c. reply-IsProper s (S.transfer_employee c s))
  serve_staff-IsProper repr (grant b) s =
      handle-IsProper staff_status _ _ s (λ c. reply-IsProper s (S.grant_multi_branch_access c s))
  serve_staff-IsProper repr (revoke b) s =
      handle-IsProper staff_status _ _ s
        (λ c. reply-IsProper s (S.revoke_employee_device_access c s))
  serve_staff-IsProper repr (offboard b) s =
      handle-IsProper staff_status _ _ s
        (λ c. reply-IsProper s (S.fire_employee_and_wipe_biometrics c s))
  serve_staff-IsProper repr (delete b) s =
      handle-IsProper staff_status _ _ s (λ c. reply-IsProper s (S.delete_employee_permanently c s))
  serve_staff-IsProper repr (list_employees registry) s = refl
  serve_staff-IsProper repr (list_branches registry) s = refl
  serve_staff-IsProper repr (get_employee id) s = employee_reply-IsProper _ s

-- A destination that is an array or an object is no refusal: a `TypeError` leaves the route.
pub read_transfer-raises :
    (repr : Json → Text) (ms : Members) (es : Elements)
    → is_true (employee_key ms) ≡ true
    → get ms (codes "toBranchId") ≡ array es
    → read_transfer repr ms ≡ err (raised type_error)
unfolding read_transfer to_int
read_transfer-raises repr ms es h e = rw (h, e) refl
