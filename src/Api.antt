-- ===== src/Api.antt =====
-- cmd/api/main.go: the handlers of the HTTP server and its own middleware. The request body that gin
-- has bound, or its error, is an argument of a handler; the answer is a status and a body.
pub mod Number
pub mod Headers
pub mod Upload
pub mod Storage
pub mod Server
pub mod Admitted
pub mod Registration
pub mod Changes
pub mod Consistency
pub mod Outcome
pub mod Journey
pub mod Tests
pub mod Runs
use go_attend.Common.{
  ℕ, ◌/◌, String, Bool, true, false, not, ◌&&◌, ◌||◌, Option, none, some, List, if◌then◌else◌, ◌==◌,
  Result, Done, ok, err,
}
use go_attend.Common.Int.{ℤ, pos, ◌-ℤ◌}
use go_attend.Queue.{Message}
use go_attend.Attendance.Tables.{Event, Employee, Database, Call}
use go_attend.Attendance.Events.{save_refresh_token}
use go_attend.Attendance.Employees.{list_employees, get_employee}
use go_attend.Attendance.Query.{list_events}
use go_attend.Attendance.Service.{Service, Attempt, register_device, check_in}
use go_attend.Auth.{TokenPair, Claims, Jwt, Clock, Admission, unauthorized, admitted, issue}
use go_attend.Api.Number.{atoi}

-- The JSON object of an answer.
pub data Body : Type 0 where
  failure : String → Body
  tokens : String → String → ℤ → Body
  accepted : String → ℕ → String → Body
  events : List Event → Body
  employees : List Employee → Body
  employee : Employee → Body
  health : Bool → Bool → Body

pub record Reply : Type 0 where
  pub status : ℕ
  pub body : Body

abbrev pub respond : ℕ → Body → Reply
respond status body = record { status = status; body = body }

-- The settings that the handlers read.
pub record Config : Type 0 where
  pub jwt_issuer : String
  pub jwt_signing_key : String
  pub access_ttl : ℤ
  pub refresh_ttl : ℤ

unfoldable pub healthz : Bool → Bool → Reply
healthz redis_healthy db_healthy =
    respond (if not redis_healthy || not db_healthy then 503 else 200)
      (health redis_healthy db_healthy)

-- time.Time.Unix, from the nanoseconds since the zero time.
abbrev pub unix : ℕ → ℤ
unix t = pos (t / 1000000000) -ℤ pos 62135596800

-- The calls of the database for one registration.
pub record Registering : Type 0 where
  pub upsert : Call
  pub save : Call

-- The answer to a registration, once the tokens are issued; an error of SaveRefreshToken is ignored.
unfoldable pub after_issue : Registering → Database → String → Result TokenPair → Database × Reply
after_issue calls db device_id (err e) = (db, respond 500 (failure "token issue failed"))
after_issue calls db device_id (ok pair) = (
  (save_refresh_token calls.save db device_id pair.refresh_token pair.refresh_exp).0,
  respond 201 (tokens pair.access_token pair.refresh_token (unix pair.access_exp)),
)

unfoldable pub after_register :
    Jwt → Config → Clock → Registering → String → Database × Done → Database × Reply
unfolding after_issue issue
after_register jwt cfg clock calls device_id (db, err e) = (db, respond 400 (failure e))
after_register jwt cfg clock calls device_id (db, ok _) = after_issue calls db device_id (
    issue jwt clock device_id "device" cfg.jwt_issuer cfg.jwt_signing_key cfg.access_ttl
      cfg.refresh_ttl)

-- POST /v1/devices/register.
unfoldable pub post_register :
    Jwt → Config → Clock → Registering → Database → Result String → Database × Reply
unfolding after_register register_device
post_register jwt cfg clock calls db (err e) = (db, respond 400 (failure e))
post_register jwt cfg clock calls db (ok device_id) =
    after_register jwt cfg clock calls device_id (register_device calls.upsert db device_id)

pub record CheckinRequest : Type 0 where
  pub user_id : String
  pub device_id : String
  pub location : String
  pub image_url : String

-- The queue that the API publishes to.
pub record Publisher : Type 1 where
  pub Q : Type 0
  pub send : Q → Message → Q × Done

module _ (queue : Publisher) where
  abbrev pub State : Type 0
  State = Database × queue.Q

  -- An error of Publish is logged only.
  unfoldable pub after_check_in : queue.Q → Database × Result Event → State × Reply
  after_check_in q (db, err e) = ((db, q), respond 400 (failure e))
  after_check_in q (db, ok evt) = (
    (db, (queue.send q (record { type = "checkin"; body = evt.id })).0),
    respond 202 (accepted evt.id evt.when evt.status),
  )

  -- POST /v1/checkins, with the claims that the middleware has set.
  unfoldable pub post_checkin :
      Service → Attempt → State → Claims → Result CheckinRequest → State × Reply
  unfolding after_check_in check_in
  post_checkin s a state claims (err e) = (state, respond 400 (failure e))
  post_checkin s a (db, q) claims (ok req) =
      if not (claims.subject == "") && not (claims.subject == req.device_id)
      then ((db, q), respond 403 (failure "device mismatch"))
      else (after_check_in q (check_in s a db req.user_id req.device_id req.location req.image_url))

  -- The group of routes behind DeviceAuth: its answer 401, or the handler.
  unfoldable pub guarded : State → Admission → (State → Claims → State × Reply) → State × Reply
  guarded state (unauthorized e) handler = (state, respond 401 (failure e))
  guarded state (admitted claims) handler = handler state claims

-- A number of the query string, or the default.
unfoldable pub page_value : String → ℤ → ℤ
unfolding atoi
page_value v default =
    if v == "" then default else (elim (atoi v) [ some parsed ↦ parsed | none ↦ default ])

unfoldable pub events_reply : Result (List Event) → Reply
events_reply (err e) = respond 500 (failure e)
events_reply (ok found) = respond 200 (events found)

-- GET /v1/events.
unfoldable pub get_events : Call → Database → String → String → String → String → Reply
unfolding events_reply page_value list_events
get_events call db device_id user_id limit offset =
    events_reply (
      list_events call db device_id user_id (page_value limit (pos 50)) (page_value offset (pos 0)))

unfoldable pub employees_reply : Result (List Employee) → Reply
employees_reply (err e) = respond 500 (failure e)
employees_reply (ok found) = respond 200 (employees found)

-- GET /v1/employees, over the order of the names.
unfoldable pub get_employees : (String → String → Bool) → Call → Database → Reply
unfolding employees_reply list_employees
get_employees le call db = employees_reply (list_employees le call db)

unfoldable pub employee_reply : Result (Option Employee) → Reply
employee_reply (err e) = respond 500 (failure e)
employee_reply (ok none) = respond 404 (failure "employee not found")
employee_reply (ok (some emp)) = respond 200 (employee emp)

-- GET /v1/employees/:id.
unfoldable pub get_employee_by_id : Call → Database → String → Reply
unfolding employee_reply get_employee
get_employee_by_id call db employee_id = employee_reply (get_employee call db employee_id)
