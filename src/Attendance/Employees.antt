-- ===== src/Attendance/Employees.antt =====
-- internal/attendance/repo.go: the table of employees.
use mathlib.Core.List.{map}
use go_attend.Common.{
  ℕ, String, Bool, false, Option, none, some, List, [], ◌∷◌, if◌then◌else◌, ◌==◌, Result, Done, ok,
}
use go_attend.Attendance.Tables.{Employee, EmployeeRow, Database, Call, execute, query, contains}
use go_attend.Attendance.Events.{coalesce}

abbrev pub employee_ids : List EmployeeRow → List String
employee_ids = map (λ r. r.employee.employee_id)

abbrev pub with_name : ℕ → String → Option String → EmployeeRow → EmployeeRow
with_name now employee_id name r =
    if r.employee.employee_id == employee_id
    then record {
      employee = record r.employee { name = coalesce name r.employee.name };
      updated_at = now;
    }
    else r

abbrev pub new_row : ℕ → String → String → Option String → EmployeeRow
new_row now uuid employee_id name = record {
  employee = record {
    id = uuid;
    employee_id = employee_id;
    name = name;
    email = none;
    department = none;
    face_enrolled = false;
    enrolled_at = none;
    created_at = now;
  };
  updated_at = now;
}

-- `uuid` is what the column's default, uuid_generate_v4(), gives.
unfoldable pub upsert_employee : Call → Database → String → String → Option String → Database × Done
upsert_employee call db uuid employee_id name = execute call db (
    if contains employee_id (employee_ids db.employees)
    then (record db { employees = map (with_name call.now employee_id name) db.employees }, ok tt)
    else (record db { employees = new_row call.now uuid employee_id name ∷ db.employees }, ok tt))

abbrev pub with_face : ℕ → String → Bool → Option ℕ → EmployeeRow → EmployeeRow
with_face now employee_id enrolled enrolled_at r =
    if r.employee.employee_id == employee_id
    then record {
      employee = record r.employee { face_enrolled = enrolled; enrolled_at = enrolled_at };
      updated_at = now;
    }
    else r

-- `stamp` is what time.Now returns.
unfoldable pub set_employee_face_enrolled : Call → Database → ℕ → String → Bool → Database × Done
set_employee_face_enrolled call db stamp employee_id enrolled =
    let enrolled_at = if enrolled then some stamp else none in
    execute call db (
      record db {
        employees = map (with_face call.now employee_id enrolled enrolled_at) db.employees;
      },
      ok tt,
    )

-- `none` is the nil pointer that stands for no row.
unfoldable pub find_employee : String → List EmployeeRow → Option Employee
find_employee employee_id [] = none
find_employee employee_id (r ∷ rows) =
    let rest = find_employee employee_id rows in
    if r.employee.employee_id == employee_id then some r.employee else rest

unfoldable pub get_employee : Call → Database → String → Result (Option Employee)
unfolding find_employee
get_employee call db employee_id = query call (ok (find_employee employee_id db.employees))

-- ORDER BY employee_id, in the collation of the database.
module _ (le : String → String → Bool) where
  unfoldable pub insert_employee : Employee → List Employee → List Employee
  insert_employee e [] = e ∷ []
  insert_employee e (x ∷ xs) =
      let rest = insert_employee e xs in
      if le e.employee_id x.employee_id then e ∷ x ∷ xs else x ∷ rest

  unfoldable pub order_employees : List EmployeeRow → List Employee
  unfolding insert_employee
  order_employees [] = []
  order_employees (r ∷ rows) = insert_employee r.employee (order_employees rows)

  unfoldable pub list_employees : Call → Database → Result (List Employee)
  unfolding order_employees
  list_employees call db = query call (ok (order_employees db.employees))
