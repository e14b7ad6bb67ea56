-- ===== src/Router/Staff.antt =====
-- The routes of app/router/employees.py. core/employee_service.py is what they call, with the values of the body as
-- they are.
pub mod Refusals
use pumo_bio_metric.Prelude.{
  ℕ, ◌++◌, Bool, true, false, not, ◌&&◌, ◌||◌, List, [], ◌∷◌, if◌then◌else◌, Option, none, some,
  Result, ok, err, map,
}
use pumo_bio_metric.Text.{Text, codes}
use pumo_bio_metric.Text.Numbers.{ℤ, pos, str}
use pumo_bio_metric.Dict.{Dict}
use pumo_bio_metric.Device.{DeviceInfo}
use pumo_bio_metric.Employee.{Branch, Employee, get_branches, branch_of, get_employee_by_id}
use pumo_bio_metric.Router.Json.{
  Json, null, bool, number, text, Members, Exception, value_error, attribute_error, type_error,
  is_true, to_int, get, get_or, first_true,
}
use pumo_bio_metric.Router.Body.{
  Stop, refused, raised, ◌>>=◌, ◌>>◌, lift, refuse_if, read_body, int_field, flag, word_field,
  Response, answered, status_of, handle,
}

pub record TransferCall : Type 0 where
  pub employee_id : Json
  pub to_branch_id : ℤ
  pub effective_date : Json
  pub reason : Json
  pub transfer_biometric : Bool
  pub biometric_mode : Text
  pub simulate : Bool
  pub timeout : ℤ

pub record GrantCall : Type 0 where
  pub employee_id : Json
  pub target_branch_id : Json
  pub target_device_sn : Json
  pub simulate : Bool
  pub timeout : ℤ

pub record RevokeCall : Type 0 where
  pub employee_id : Json
  pub device_sn : Json
  pub biometrics_only : Bool
  pub simulate : Bool
  pub timeout : ℤ

pub record FireCall : Type 0 where
  pub employee_id : Json
  pub action : Text
  pub device_sn : Json
  pub delete_mode : Text
  pub simulate : Bool
  pub timeout : ℤ

pub record DeleteCall : Type 0 where
  pub employee_id : Json
  pub wipe_biometrics : Bool
  pub simulate : Bool
  pub timeout : ℤ

-- core/employee_service.py, with the directory and the readers as its state
pub record Staff : Type 1 where
  pub State : Type 0
  pub Reply : Type 0
  -- `res.get("ok")`
  pub is_ok : Reply → Bool
  -- `load_employees`
  pub directory : State → List Employee
  pub transfer_employee : TransferCall → State → Reply × State
  pub grant_multi_branch_access : GrantCall → State → Reply × State
  pub revoke_employee_device_access : RevokeCall → State → Reply × State
  pub fire_employee_and_wipe_biometrics : FireCall → State → Reply × State
  pub delete_employee_permanently : DeleteCall → State → Reply × State

-- `data.get(a) or data.get(b)`
unfoldable pub either : Text → Text → Members → Json
either a b ms = first_true (get ms b) ms (a ∷ [])

abbrev pub employee_key : Members → Json
employee_key = either (codes "employeeId") (codes "id")

abbrev pub device_key : Members → Json
device_key = either (codes "deviceSn") (codes "sn")

abbrev pub is_null : Json → Bool
is_null null = true
is_null (bool _) = false
is_null (number _) = false
is_null (text _) = false
is_null (Json.array _) = false
is_null (Json.object _) = false

-- `except ValueError` turns the error into a refusal; a `TypeError` leaves the route.
abbrev pub refuse_value_error : {A : Type 0} → Result Exception A → Result Stop A
refuse_value_error (ok a) = ok a
refuse_value_error (err value_error) = err refused
refuse_value_error (err type_error) = err (raised type_error)
refuse_value_error (err attribute_error) = err (raised attribute_error)

-- `except ValueError: pass`
abbrev pub or_keep : Json → Result Exception ℤ → Result Stop Json
or_keep v (ok n) = ok (number n)
or_keep v (err value_error) = ok v
or_keep v (err type_error) = err (raised type_error)
or_keep v (err attribute_error) = err (raised attribute_error)

-- `if target_branch_id: try: target_branch_id = int(target_branch_id)`
unfoldable pub branch_given : Json → Result Stop Json
branch_given v = if is_true v then or_keep v (to_int v) else ok v

module _ (repr : Json → Text) where
  -- `/transfer`
  unfoldable pub read_transfer : Members → Result Stop TransferCall
  read_transfer ms = do
    refuse_if (not (is_true (employee_key ms)) || is_null (get ms (codes "toBranchId")))
    to_branch_id ← refuse_value_error (to_int (get ms (codes "toBranchId")))
    timeout ← lift (int_field (codes "timeout") 8 ms)
    ok (record {
      employee_id = employee_key ms;
      to_branch_id = to_branch_id;
      effective_date = get ms (codes "effectiveDate");
      reason = get ms (codes "reason");
      transfer_biometric = is_true (get_or (bool true) ms (codes "transferBiometric"));
      biometric_mode = word_field repr (codes "biometricMode") (codes "move") ms;
      simulate = flag (codes "simulate") ms;
      timeout = timeout;
    })

  -- `/offboard` and `/fire`
  unfoldable pub read_fire : Members → Result Stop FireCall
  read_fire ms = do
    timeout ← lift (int_field (codes "timeout") 5 ms)
    refuse_if (not (is_true (employee_key ms)))
    ok (record {
      employee_id = employee_key ms;
      action = word_field repr (codes "action") (codes "fire_all") ms;
      device_sn = device_key ms;
      delete_mode = word_field repr (codes "deleteMode") (codes "full") ms;
      simulate = flag (codes "simulate") ms;
      timeout = timeout;
    })

-- `/grant-access`
unfoldable pub read_grant : Members → Result Stop GrantCall
read_grant ms =
    let branch = get ms (codes "targetBranchId") in
    let device = either (codes "targetDeviceSn") (codes "sn") ms in
    do
      timeout ← lift (int_field (codes "timeout") 8 ms)
      refuse_if (not (is_true (employee_key ms)))
      refuse_if (not (is_true branch) && not (is_true device))
      branch ← branch_given branch
      ok (record {
        employee_id = employee_key ms;
        target_branch_id = branch;
        target_device_sn = device;
        simulate = flag (codes "simulate") ms;
        timeout = timeout;
      })

-- `/revoke-access`
unfoldable pub read_revoke : Members → Result Stop RevokeCall
read_revoke ms = do
  timeout ← lift (int_field (codes "timeout") 5 ms)
  refuse_if (not (is_true (employee_key ms)) || not (is_true (device_key ms)))
  ok (record {
    employee_id = employee_key ms;
    device_sn = device_key ms;
    biometrics_only = flag (codes "deleteBiometricsOnly") ms;
    simulate = flag (codes "simulate") ms;
    timeout = timeout;
  })

-- `/delete`
unfoldable pub read_delete : Members → Result Stop DeleteCall
read_delete ms = do
  timeout ← lift (int_field (codes "timeout") 5 ms)
  refuse_if (not (is_true (employee_key ms)))
  ok (record {
    employee_id = employee_key ms;
    wipe_biometrics = is_true (get_or (bool true) ms (codes "wipeBiometrics"));
    simulate = flag (codes "simulate") ms;
    timeout = timeout;
  })

-- An entry of the reply of the list: an employee with the name and the code of the branch.
pub record Enriched : Type 0 where
  pub employee : Employee
  pub branch_name : Text
  pub branch_code : Text

unfoldable pub enriched : List Branch → Employee → Enriched
enriched branches e = record {
  employee = e;
  branch_name = elim (branch_of e.branch_id branches) [
    | some b ↦ b.name
    | none ↦ codes "Branch " ++ str e.branch_id
  ];
  branch_code = elim (branch_of e.branch_id branches) [
    | some b ↦ b.code
    | none ↦ codes "BR-" ++ str e.branch_id
  ];
}

pub data StaffContent (S : Staff) : Type 0 where
  result : S.Reply → StaffContent S
  employees : List Enriched → StaffContent S
  branches : List Branch → StaffContent S
  one_employee : Employee → StaffContent S
  not_found : StaffContent S

-- What the content says under `ok`; the two lists have no such key.
unfoldable pub staff_ok : {S : Staff} → StaffContent S → Bool
staff_ok {S} (result r) = S.is_ok r
staff_ok (employees es) = true
staff_ok (branches bs) = true
staff_ok (one_employee e) = true
staff_ok not_found = false

pub data StaffRequest : Type 0 where
  transfer grant revoke offboard delete : Option Json → StaffRequest
  -- with the registry at that time
  list_employees list_branches : Dict DeviceInfo → StaffRequest
  get_employee : Text → StaffRequest

module _ (S : Staff) where
  abbrev pub Served : Type 0
  Served = Response (StaffContent S) × S.State

  abbrev pub reply : S.Reply × S.State → Served
  reply (r, s) = (answered (status_of (S.is_ok r)) (result r), s)

  abbrev pub employee_reply : Option Employee → Response (StaffContent S)
  employee_reply none = answered 404 not_found
  employee_reply (some e) = answered 200 (one_employee e)

  unfoldable pub serve_staff : (Json → Text) → StaffRequest → S.State → Served
  unfolding enriched
  serve_staff repr (transfer b) =
      handle (read_body b >>= read_transfer repr) (λ c s. reply (S.transfer_employee c s))
  serve_staff repr (grant b) =
      handle (read_body b >>= read_grant) (λ c s. reply (S.grant_multi_branch_access c s))
  serve_staff repr (revoke b) =
      handle (read_body b >>= read_revoke) (λ c s. reply (S.revoke_employee_device_access c s))
  serve_staff repr (offboard b) =
      handle (read_body b >>= read_fire repr)
        (λ c s. reply (S.fire_employee_and_wipe_biometrics c s))
  serve_staff repr (delete b) =
      handle (read_body b >>= read_delete) (λ c s. reply (S.delete_employee_permanently c s))
  serve_staff repr (list_employees registry) =
      λ s. (answered 200 (employees (map (enriched (get_branches registry)) (S.directory s))), s)
  serve_staff repr (list_branches registry) =
      λ s. (answered 200 (branches (get_branches registry)), s)
  serve_staff repr (get_employee id) =
      λ s. (employee_reply (get_employee_by_id id (S.directory s)), s)
