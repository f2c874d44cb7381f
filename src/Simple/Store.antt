-- ===== src/Simple/Store.antt =====
-- newGoAttend/backend/internal/store/store.go and internal/model/model.go. A table is the list of its
-- rows, the newest first. The times are written as texts whose order is that of the times.
use go_attend.Common.{
  ℕ, String, Bool, Option, none, some, List, [], ◌∷◌, map, not, ◌&&◌, if◌then◌else◌, ◌==◌, take,
  find, Result, Done, ok, err,
}
use go_attend.Common.Int.{ℤ, pos, pos_part, leb_ℤ}
use go_attend.Common.Sql.{Call, execute, query, contains}
use go_attend.Common.Newest.{order_newest}

pub record Student : Type 0 where
  pub id : String
  pub name : String
  pub email : String
  pub student_id : String
  pub department : String
  pub photo_url : String
  pub created_at : ℕ

pub record AttendanceRecord : Type 0 where
  pub id : String
  pub student_id : String
  pub name : String
  pub timestamp : ℕ
  pub status : String

-- A row of the table `attendance`.
pub record AttendanceRow : Type 0 where
  pub id : String
  pub student_id : String
  pub timestamp : ℕ
  pub status : String

-- SQLite checks REFERENCES only where its setting foreign_keys is on.
pub record Store : Type 0 where
  pub foreign_keys : Bool
  pub students : List Student
  pub attendance : List AttendanceRow

abbrev pub ids : List Student → List String
ids = map (λ s. s.id)

abbrev pub emails : List Student → List String
emails = map (λ s. s.email)

abbrev pub student_ids : List Student → List String
student_ids = map (λ s. s.student_id)

abbrev pub row_ids : List AttendanceRow → List String
row_ids = map (λ r. r.id)

-- The tables of `migrate` on a new file.
abbrev pub migrated : Bool → Store
migrated foreign_keys = record { foreign_keys = foreign_keys; students = []; attendance = [] }

-- The student with what CreateStudent sets, whether the row is accepted or not.
abbrev pub stamped : String → ℕ → Student → Student
stamped uuid now st = record st { id = uuid; created_at = now }

-- `uuid` is what uuid.New returns and `now` what time.Now does.
unfoldable pub create_student : Call → Store → String → ℕ → Student → Store × Done
create_student call s uuid now st =
    let row = stamped uuid now st in
    execute call s (
      if contains row.id (ids s.students)
      then (s, err "UNIQUE constraint failed: students.id")
      else (if contains row.email (emails s.students)
          then (s, err "UNIQUE constraint failed: students.email")
          else (if contains row.student_id (student_ids s.students)
              then (s, err "UNIQUE constraint failed: students.student_id")
              else (record s { students = row ∷ s.students }, ok tt))))

unfoldable pub list_students : Call → Store → Result (List Student)
list_students call s = query call (ok (order_newest (λ (st : Student). st.created_at) s.students))

abbrev pub is_student : String → Student → Bool
is_student id st = st.id == id

-- `none` is the nil pointer of sql.ErrNoRows.
unfoldable pub get_student_by_id : Call → Store → String → Result (Option Student)
get_student_by_id call s id = query call (ok (find (is_student id) s.students))

abbrev pub with_photo : String → String → Student → Student
with_photo id photo_url st = if st.id == id then record st { photo_url = photo_url } else st

unfoldable pub update_student_photo : Call → Store → String → String → Store × Done
update_student_photo call s id photo_url =
    execute call s (record s { students = map (with_photo id photo_url) s.students }, ok tt)

-- The record that MarkAttendance returns; its row is the one that is inserted.
abbrev pub new_record : String → ℕ → String → AttendanceRecord
new_record uuid now student_id = record {
  id = uuid;
  student_id = student_id;
  name = "";
  timestamp = now;
  status = "present";
}

abbrev pub row_of : AttendanceRecord → AttendanceRow
row_of r = record {
  id = r.id;
  student_id = r.student_id;
  timestamp = r.timestamp;
  status = r.status;
}

unfoldable pub mark_attendance :
    Call → Store → String → ℕ → String → Store × Result AttendanceRecord
mark_attendance call s uuid now student_id =
    let rec = new_record uuid now student_id in
    execute call s (
      if contains uuid (row_ids s.attendance)
      then (s, err "UNIQUE constraint failed: attendance.id")
      else (if s.foreign_keys && not (contains student_id (ids s.students))
          then (s, err "FOREIGN KEY constraint failed")
          else (record s { attendance = row_of rec ∷ s.attendance }, ok rec)))

-- A row of the join, of which students.id leaves at most one.
abbrev pub joined : AttendanceRow → Option Student → List AttendanceRecord → List AttendanceRecord
joined r none rest = rest
joined r (some st) rest =
    record {
      id = r.id;
      student_id = r.student_id;
      name = st.name;
      timestamp = r.timestamp;
      status = r.status;
    }
    ∷ rest

unfoldable pub join_students : List Student → List AttendanceRow → List AttendanceRecord
join_students students [] = []
join_students students (r ∷ rows) =
    joined r (find (is_student r.student_id) students) (join_students students rows)

unfoldable pub list_attendance : Call → Store → ℤ → Result (List AttendanceRecord)
unfolding join_students
list_attendance call s limit =
    let limit' = if leb_ℤ limit (pos 0) then pos 50 else limit in
    query call (
      ok (
        take (pos_part limit') (
          order_newest (λ (r : AttendanceRecord). r.timestamp)
            (join_students s.students s.attendance))))
