-- ===== src/Attendance/Updates.antt =====
-- internal/attendance/repo.go: what a later read sees of a write.
use mathlib.Core.List.{map}
use mathlib.Core.Option
use go_attend.Common.{
  ℕ, String, ◌≡◌, refl, ap, subst, ◌∙◌, Bool, true, false, Bool-cases, inl, inr, Option, none, some,
  List, [], ◌∷◌, if◌then◌else◌, ◌==◌, eq_iff, ok, ◌>>=◌, find, arith,
}
use go_attend.Attendance.Tables.{Event, Employee, EmployeeRow, Database, Call, contains}
use go_attend.Attendance.Events.{
  coalesce, one_row, has_id, with_status, get_event, update_event_status,
}
use go_attend.Attendance.Employees.{
  employee_ids, with_name, with_face, new_row, upsert_employee, set_employee_face_enrolled,
  find_employee, get_employee,
}

find-with_status :
    (id status j : String) (score : Option ℕ) (es : List Event)
    → find (has_id j) (map (with_status id status score) es)
      ≡ Option.map (with_status id status score) (find (has_id j) es)
find-with_status id status j score [] = refl
find-with_status id status j score (e ∷ es) = ground (arith, find-with_status id status j score es)

one_row-map :
    (f : Event → Event) (o : Option Event)
    → one_row (Option.map f o) ≡ (one_row o >>= λ e. ok (f e))
one_row-map f none = refl
one_row-map f (some e) = refl

-- A read of the events after the update, in terms of the rows.
pub get_event-with_status :
    (call call' : Call) (db : Database) (id status j : String) (score : Option ℕ)
    → call.fault ≡ none
    → call'.fault ≡ none
    → get_event call' (update_event_status call db id status score).0 j
      ≡ (do e ← get_event call' db j; ok (with_status id status score e))
unfolding get_event update_event_status
get_event-with_status call call' db id status j score up up' =
    rw (up, up')
      (rw (find-with_status id status j score db.events)
        (one_row-map (with_status id status score) (find (has_id j) db.events)))

-- The event with the status, and with the score if there is one.
abbrev pub marked : String → Option ℕ → Event → Event
marked status none e = record e { status = status }
marked status (some score) e = record e { status = status; match_score = some score }

find-marked :
    (id status j : String) (score : Option ℕ) (es : List Event)
    → find (has_id j) (map (with_status id status score) es) ≡ (
        if id == j
        then Option.map (marked status score) (find (has_id j) es)
        else find (has_id j) es)
find-marked id status j score [] = ground arith
find-marked id status j none (e ∷ es) =
    ground (arith, find-marked id status j none es, eq_iff id j, eq_iff e.id id, eq_iff e.id j)
find-marked id status j (some v) (e ∷ es) =
    ground (arith, find-marked id status j (some v) es, eq_iff id j, eq_iff e.id id, eq_iff e.id j)

marked_read :
    (b : Bool) (status : String) (score : Option ℕ) (o : Option Event)
    → one_row (if b then Option.map (marked status score) o else o)
      ≡ (if b then (one_row o >>= λ e. ok (marked status score e)) else one_row o)
marked_read true status score o = one_row-map (marked status score) o
marked_read false status score o = refl

-- After an UpdateEventStatus that is executed, every event of another id is read as before. The one of
-- the id has the new status, and the new score if one was given and else its old score, and is the same
-- in all other columns; if there was none there is none.
pub get_event-update_event_status :
    (call call' : Call) (db : Database) (id status j : String) (score : Option ℕ)
    → call.fault ≡ none
    → call'.fault ≡ none
    → get_event call' (update_event_status call db id status score).0 j ≡ (
        if id == j
        then (do e ← get_event call' db j; ok (marked status score e))
        else get_event call' db j)
unfolding get_event update_event_status
get_event-update_event_status call call' db id status j score up up' =
    rw (up, up')
      (rw (find-marked id status j score db.events)
        (marked_read (id == j) status score (find (has_id j) db.events)))

-- What UpsertEmployee makes of the employee that has the id, or of none.
abbrev pub upserted : ℕ → String → String → Option String → Option Employee → Employee
upserted now uuid employee_id name none = (new_row now uuid employee_id name).employee
upserted now uuid employee_id name (some e) = record e { name = coalesce name e.name }

find-with_name :
    (now : ℕ) (id j : String) (name : Option String) (rows : List EmployeeRow)
    → find_employee j (map (with_name now id name) rows)
      ≡ Option.map
          (λ e. if id == j then record e { name = coalesce name e.name } else e)
          (find_employee j rows)
unfolding find_employee
find-with_name now id j name [] = refl
find-with_name now id j name (r ∷ rows) = ground (
  arith,
  find-with_name now id j name rows,
  eq_iff id j,
  eq_iff r.employee.employee_id id,
  eq_iff r.employee.employee_id j,
)

contains-find :
    (id : String) (rows : List EmployeeRow)
    → contains id (employee_ids rows) ≡ true
    → (e : Employee) × (find_employee id rows ≡ some e)
unfolding find_employee
contains-find id [] h = cc
contains-find id (r ∷ rows) h = elim (Bool-cases (r.employee.employee_id == id)) [
  | inl here ↦ (r.employee, rw here refl)
  | inr later ↦ rw later (contains-find id rows (rw later at h))
]

not_contains-find :
    (id : String) (rows : List EmployeeRow)
    → contains id (employee_ids rows) ≡ false
    → find_employee id rows ≡ none
unfolding find_employee
not_contains-find id [] h = refl
not_contains-find id (r ∷ rows) h = ground (arith, not_contains-find id rows)

merge_old :
    (now : ℕ) (uuid id : String) (name : Option String) (b : Bool) (o : Option Employee)
    {e : Employee}
    → (b ≡ true → o ≡ some e)
    → Option.map (λ x. if b then record x { name = coalesce name x.name } else x) o
      ≡ (if b then some (upserted now uuid id name o) else o)
merge_old now uuid id name true none h = cc (h refl)
merge_old now uuid id name true (some x) h = refl
merge_old now uuid id name false none h = refl
merge_old now uuid id name false (some x) h = refl

merge_new :
    (now : ℕ) (uuid id : String) (name : Option String) (b : Bool) (o : Option Employee)
    → (b ≡ true → o ≡ none)
    → (if b then some (upserted now uuid id name none) else o)
      ≡ (if b then some (upserted now uuid id name o) else o)
merge_new now uuid id name true o h = rw (h refl) refl
merge_new now uuid id name false o h = refl

find_of_test :
    (id j : String) (rows : List EmployeeRow) {o : Option Employee}
    → find_employee id rows ≡ o
    → (id == j) ≡ true
    → find_employee j rows ≡ o
find_of_test id j rows {o} found same =
    subst (λ x. find_employee x rows ≡ o) ((eq_iff id j).0 same) found

-- After an executed UpsertEmployee the employee of the id is a new one, or the old one with the new
-- name if one was given, and every other is read as before.
pub get_employee-upsert_employee :
    (call call' : Call) (db : Database) (uuid id j : String) (name : Option String)
    → call.fault ≡ none
    → call'.fault ≡ none
    → get_employee call' (upsert_employee call db uuid id name).0 j
      ≡ ok (
          if id == j
          then some (upserted call.now uuid id name (find_employee j db.employees))
          else find_employee j db.employees)
unfolding upsert_employee get_employee find_employee
get_employee-upsert_employee call call' db uuid id j name up up' =
    elim (Bool-cases (contains id (employee_ids db.employees))) [
      | inl old ↦
          let (e, found) = contains-find id db.employees old in
          rw (up, up', old)
            (ap (λ o. ok o)
              (find-with_name call.now id j name db.employees
                ∙ merge_old call.now uuid id name (id == j) (find_employee j db.employees)
                    (find_of_test id j db.employees found)))
      | inr new ↦
          rw (up, up', new)
            (ap (λ o. ok o)
              (merge_new call.now uuid id name (id == j) (find_employee j db.employees)
                (find_of_test id j db.employees (not_contains-find id db.employees new))))
    ]

find-with_face :
    (now : ℕ) (id j : String) (enrolled : Bool) (at : Option ℕ) (rows : List EmployeeRow)
    → find_employee j (map (with_face now id enrolled at) rows)
      ≡ Option.map
          (λ e. if id == j then record e { face_enrolled = enrolled; enrolled_at = at } else e)
          (find_employee j rows)
unfolding find_employee
find-with_face now id j enrolled at [] = refl
find-with_face now id j enrolled at (r ∷ rows) = ground (
  arith,
  find-with_face now id j enrolled at rows,
  eq_iff id j,
  eq_iff r.employee.employee_id id,
  eq_iff r.employee.employee_id j,
)

-- After an executed SetEmployeeFaceEnrolled the employee of the id, if there is one, has the flag, and
-- a time of enrolment exactly if the flag is set; every other is read as before, and none is new.
pub get_employee-set_employee_face_enrolled :
    (call call' : Call) (db : Database) (stamp : ℕ) (id j : String) (enrolled : Bool)
    → call.fault ≡ none
    → call'.fault ≡ none
    → get_employee call' (set_employee_face_enrolled call db stamp id enrolled).0 j ≡ (do
      found ← get_employee call' db j
      ok (
          Option.map
            (λ e.
              if id == j
              then record e {
                face_enrolled = enrolled;
                enrolled_at = if enrolled then some stamp else none;
              }
              else e)
            found))
unfolding set_employee_face_enrolled get_employee
get_employee-set_employee_face_enrolled call call' db stamp id j enrolled up up' =
    rw (up, up')
      (ap (λ o. ok o)
        (find-with_face call.now id j enrolled (if enrolled then some stamp else none)
          db.employees))
