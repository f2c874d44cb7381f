-- ===== src/Attendance/Tests.antt =====
-- internal/attendance: the repository and the service on concrete tables.
use go_attend.Common.{
  ℕ, ◌≤◌, String, ◌≡◌, refl, true, none, some, [], ◌∷◌, if◌then◌else◌, ◌==◌, ok, err, ◌>>=◌, take,
  drop, All, arith, inr,
}
use go_attend.Common.Int.{pos, negsuc, pos_part}
use go_attend.Attendance.Tables.{Event, Database, Call}
use go_attend.Attendance.Events.{upsert_device, recent_event, get_event, update_event_status}
use go_attend.Attendance.Employees.{upsert_employee, get_employee, find_employee, new_row}
use go_attend.Attendance.Query.{list_events, join_clauses, build_query, query_text}
use go_attend.Attendance.Service.{
  Service, Attempt, new_service, register_device, check_in, check_in_between,
}
use go_attend.Common.Newest.{IsNewestFirst, order_newest}
use go_attend.Attendance.Outcome.{stored_event}
use go_attend.Attendance.Spacing.{IsSpaced, check_in_between-IsSpaced, check_in_again}
use go_attend.Attendance.Listing.{matches, limit_of, selected, list_events_lem, list_events-page}
use go_attend.Attendance.Text.{intercalate, join_clauses-intercalate}
use go_attend.Attendance.Updates.{
  marked, upserted, get_event-update_event_status, get_employee-upsert_employee,
}
use go_attend.Attendance.Registration.{IsTruthful, check_in-IsTruthful}

attendance : Unit {0}
unfolding check_in new_service register_device upsert_device order_newest get_event list_events
    update_event_status
attendance = tt

abbrev at : ℕ → Call
at now = record { fault = none; now = now }

abbrev down : Call
down = record { fault = some "connection refused"; now = 0 }

abbrev empty : Database
empty = record { devices = []; events = []; refresh_tokens = []; employees = [] }

abbrev with_device : Database
with_device = record empty { devices = "d" ∷ [] }

abbrev ten_ns : Service
ten_ns = record { dedup_window = pos 10 }

abbrev attempt : ℕ → String → Attempt
attempt t uuid = record { asked = at t; stamp = t; stored = at t; uuid = uuid }

abbrev first : Event
first = stored_event (attempt 100 "e1") "u" "d" "gate" "img"

abbrev one_event : Database
one_event = record with_device { events = first ∷ [] }

check_in_tests :
    (check_in ten_ns (attempt 100 "e1") with_device "u" "d" "gate" "img" ≡ (one_event, ok first))
    × (check_in ten_ns (attempt 110 "e2") one_event "u" "d" "door" "" ≡ (one_event, ok first))
    × (check_in ten_ns (attempt 100 "e1") empty "u" "d" "gate" "img"
        ≡ (empty, err "violates foreign key constraint"))
    × (check_in ten_ns (attempt 100 "e1") with_device "" "d" "gate" "img"
        ≡ (with_device, err "user and device required"))
unfolding attendance
check_in_tests = (refl, refl, refl, refl)

-- The window has passed, and a second event is stored.
check_in_later :
    (check_in ten_ns (attempt 111 "e2") one_event "u" "d" "door" "").0.events
    ≡ stored_event (attempt 111 "e2") "u" "d" "door" "" ∷ first ∷ []
unfolding attendance
check_in_later = refl

default_window : new_service (negsuc 4) ≡ record { dedup_window = pos 300000000000 }
unfolding attendance
default_window = refl

query_text_test :
    query_text (build_query "" "u" (pos 7) (negsuc 0))
    ≡ "SELECT id, user_id, device_id, occurred_at, location, image_url, status, match_score, created_at FROM attendance_events WHERE user_id = $1 ORDER BY occurred_at DESC LIMIT $2 OFFSET $3"
unfolding query_text build_query
query_text_test = refl

-- Another request stores an event of another user between the two statements.
abbrev other_event : Database
other_event = record with_device {
  events = stored_event (attempt 114 "e3") "v" "d" "" "" ∷ first ∷ [];
}

check_in_between-IsSpaced_example :
    IsSpaced 10
      (check_in_between ten_ns (attempt 115 "e2") one_event other_event "u" "d" "" "").0.events
check_in_between-IsSpaced_example =
    check_in_between-IsSpaced ten_ns (attempt 115 "e2") one_event other_event "u" "d" "" "" 10 refl
      (omega arith) refl ((λ _ _. inr (omega arith), tt), (tt, tt))

no_recent : recent_event (at 100) with_device "u" "d" (pos 10) ≡ ok none
unfolding recent_event order_newest
no_recent = refl

check_in_again_example :
    check_in ten_ns
      (attempt 110 "e2")
      (check_in ten_ns (attempt 100 "e1") with_device "u" "d" "gate" "img").0
      "u"
      "d"
      ""
      ""
    ≡ ((check_in ten_ns (attempt 100 "e1") with_device "u" "d" "gate" "img").0, ok first)
unfolding attendance
check_in_again_example =
    check_in_again ten_ns (attempt 100 "e1") (attempt 110 "e2") with_device "u" "d" "gate" "img" ""
      "" 10 first refl tt no_recent refl refl (omega arith)

list_events_example :
    list_events (at 7) one_event "d" "" (pos 0) (negsuc 3)
    ≡ ok (take (limit_of (pos 0)) (drop (pos_part (negsuc 3)) (selected one_event "d" "")))
list_events_example = list_events_lem (at 7) one_event "d" "" (pos 0) (negsuc 3) refl

list_events_run : list_events (at 7) one_event "d" "" (pos 0) (pos 0) ≡ ok (first ∷ [])
unfolding list_events order_newest
list_events_run = refl

list_events-page_example :
    (1 ≤ limit_of (pos 0))
    × IsNewestFirst (λ (x : Event). x.when) (first ∷ [])
    × All (λ e. matches "d" "" e ≡ true) (first ∷ [])
list_events-page_example =
    list_events-page (at 7) one_event "d" "" (pos 0) (pos 0) (first ∷ []) list_events_run

join_clauses-intercalate_example :
    join_clauses ("a" ∷ "b" ∷ "c" ∷ []) " AND " ≡ intercalate " AND " ("a" ∷ "b" ∷ "c" ∷ [])
join_clauses-intercalate_example = join_clauses-intercalate ("a" ∷ "b" ∷ "c" ∷ []) " AND "

get_event-update_event_status_example :
    get_event (at 8) (update_event_status (at 7) one_event "e1" "processed" none).0 "e1" ≡ (
      if "e1" == "e1"
      then (do e ← get_event (at 8) one_event "e1"; ok (marked "processed" none e))
      else get_event (at 8) one_event "e1")
get_event-update_event_status_example =
    get_event-update_event_status (at 7) (at 8) one_event "e1" "processed" "e1" none refl refl

get_employee-upsert_employee_example :
    get_employee (at 8) (upsert_employee (at 7) empty "x" "u" none).0 "u"
    ≡ ok (
        if "u" == "u"
        then some (upserted 7 "x" "u" none (find_employee "u" []))
        else find_employee "u" [])
get_employee-upsert_employee_example =
    get_employee-upsert_employee (at 7) (at 8) empty "x" "u" "u" none refl refl

abbrev with_employee : Database
with_employee = record empty { employees = new_row 5 "x" "u" none ∷ [] }

registered_once : (register_device (at 1) empty "d").1 ≡ ok tt
unfolding attendance
registered_once = refl

check_in-IsTruthful_example :
    IsTruthful one_event "u" "d"
      (check_in ten_ns (attempt 105 "e2") one_event "u" "d" "" "").0
      (check_in ten_ns (attempt 105 "e2") one_event "u" "d" "" "").1
check_in-IsTruthful_example = check_in-IsTruthful ten_ns (attempt 105 "e2") one_event "u" "d" "" ""
