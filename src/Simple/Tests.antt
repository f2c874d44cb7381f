-- ===== src/Simple/Tests.antt =====
-- newGoAttend/backend: the second server on concrete requests.
use go_attend.Common.{
  ℕ, suc, String, ◌≡◌, refl, true, false, some, none, List, [], ◌∷◌, ◌⊎◌, ok, err,
}
use go_attend.Common.Int.{pos, negsuc}
use go_attend.Common.Newest.{order_newest}
use go_attend.Common.Web.{Web}
use go_attend.Simple.Store.{Student, AttendanceRecord, Store, migrated, list_attendance}
use go_attend.Simple.Keys.{IsSound}
use go_attend.Simple.Clients.{recognize, Decoders, new_cloud}
use go_attend.Simple.Number.{atoi_value}
use go_attend.Simple.Handler.{
  Handler, Turn, RegisterRequest, PhotoPart, respond, student, marked, failure, records,
  register_student, face_login, get_student, get_students, get_attendance,
}
use go_attend.Simple.Program.{load, start, all_students, serve}
use go_attend.Simple.Journey.{IsRecognized, register_student-face_login}
use go_attend.Simple.Registration
use go_attend.Simple.Registration.{register_student-Ends}
use go_attend.Simple.Login
use go_attend.Simple.Login.{face_login-Ends}
use go_attend.Simple.Integrity.{Served, fresh, registers, logs_in, Served-IsSound}
use go_attend.Simple.Listing.{IsPage, list_attendance-IsPage, face_login-list_attendance}

simple : Unit {0}
unfolding serve start load register_student face_login get_student get_students get_attendance
    order_newest atoi_value new_cloud
simple = tt

-- A network that counts its requests and answers each with 200.
abbrev web : Web
web = record {
  World = ℕ;
  bad_file = λ file. none;
  bad_url = λ url. none;
  post_form =
      λ w url form. (suc w, ok (record { status_code = 200; status = "200 OK"; body = "{}" }));
}

abbrev decode : Decoders
decode = record {
  register = λ body. record { status = "ok"; student_id = "s1" };
  recognize = λ body. record { matched = true; student_id = "s1"; distance = 0 };
  upload = λ body. ok (record { secure_url = "https://img"; public_id = "p" });
}

abbrev handler : Handler
handler = record { cloud = none; face_client = some (record { base_url = "http://face" }) }

abbrev turn : String → ℕ → Turn
turn uuid now = record {
  fetch = record { fault = none; now = now };
  insert = record { fault = none; now = now };
  uuid = uuid;
  now = now;
}

abbrev ann : RegisterRequest
ann = record { name = "Ann"; email = "ann@x"; student_id = "7"; department = "CS" }

abbrev photo : PhotoPart
photo = record { filename = ok "a.jpg"; content = ok "bytes" }

abbrev empty : Store
empty = migrated false

abbrev one_student : Store
one_student = (register_student web decode handler (turn "s1" 10) (empty, 0) (ok ann) photo).0.0

abbrev row : Student
row = record {
  id = "s1";
  name = "Ann";
  email = "ann@x";
  student_id = "7";
  department = "CS";
  photo_url = "";
  created_at = 10;
}

abbrev present : AttendanceRecord
present = record { id = "a1"; student_id = "s1"; name = "Ann"; timestamp = 20; status = "present" }

abbrev logged_in : Store
logged_in = (face_login web decode handler (turn "a1" 20) (one_student, 1) photo).0.0

tests :
    ((register_student web decode handler (turn "s1" 10) (empty, 0) (ok ann) photo).1
      ≡ respond 201 (student row))
    × ((register_student web decode handler (turn "s2" 11) (one_student, 0) (ok ann) photo).1
        ≡ respond 409 (failure "student already exists: UNIQUE constraint failed: students.email"))
    × ((face_login web decode handler (turn "a1" 20) (one_student, 1) photo).1
        ≡ respond 200 (marked row present))
    × ((face_login web decode handler (turn "a1" 20) (empty, 1) photo).1.status ≡ 404)
    × (get_attendance (turn "" 0).fetch logged_in none ≡ respond 200 (records (present ∷ [])))
    × ((get_student (turn "" 0).fetch logged_in "s2").status ≡ 404)
    × (atoi_value "99999999999999999999x" ≡ pos 9223372036854775807)
    × (atoi_value "-3" ≡ negsuc 2)
    × (atoi_value "3x" ≡ pos 0)
    × ((start (λ url. err "bad") (load (λ key. "x"))).cloud ≡ none)
    × ((serve web decode handler (one_student, 1) (all_students (turn "" 0).fetch)).1.status ≡ 200)
unfolding simple
tests = (refl, refl, refl, refl, refl, refl, refl, refl, refl, refl, refl)

register_student-Ends_example :
    (let a = register_student web decode handler (turn "s1" 10) (empty, 0) (ok ann) photo in
      Registration.IsRegistered web decode handler (turn "s1" 10) (empty, 0) a.0 (ok ann) photo a.1
      ⊎ Registration.IsRefused web decode handler (turn "s1" 10) (empty, 0) a.0 a.1)
register_student-Ends_example =
    register_student-Ends web decode handler (turn "s1" 10) (empty, 0) (ok ann) photo

face_login-Ends_example :
    (let a = face_login web decode handler (turn "a1" 20) (one_student, 1) photo in
      Login.IsMarked web decode handler (turn "a1" 20) (one_student, 1) a.0 photo a.1
      ⊎ Login.IsRefused web decode handler (turn "a1" 20) (one_student, 1) a.0 a.1)
face_login-Ends_example = face_login-Ends web decode handler (turn "a1" 20) (one_student, 1) photo

two_requests : Served web decode handler false logged_in
two_requests =
    logs_in one_student 1 (turn "a1" 20) photo
      (registers empty 0 (turn "s1" 10) (ok ann) photo fresh)

Served-IsSound_example : IsSound logged_in
Served-IsSound_example = Served-IsSound web decode handler false logged_in two_requests

list_attendance-IsPage_example : IsPage logged_in (pos 5) (present ∷ [])
unfolding simple
list_attendance-IsPage_example =
    list_attendance-IsPage (turn "" 0).fetch logged_in (pos 5) (present ∷ [])
      (Served-IsSound web decode handler false logged_in two_requests) refl

face_login-list_attendance_example :
    (rest : List AttendanceRecord) × (list_attendance (turn "" 0).fetch logged_in (pos 5)
      ≡ ok (present ∷ rest))
unfolding simple
face_login-list_attendance_example =
    face_login-list_attendance web decode handler (turn "a1" 20) (one_student, 1) photo row present
      (turn "" 0).fetch (pos 5) refl tt refl

recognition : IsRecognized web decode handler one_student 1 2 (turn "a1" 20) "bytes" "a.jpg" row
unfolding simple recognize
recognition = record {
  face = record { base_url = "http://face" };
  configured = refl;
  result = record { matched = true; student_id = "s1"; distance = 0 };
  recognized = refl;
  matched = refl;
  same = refl;
  fetched = refl;
  inserted = refl;
  fresh = refl;
}

register_student-face_login_example :
    (face_login web decode handler (turn "a1" 20) (one_student, 1) photo).1
    ≡ respond 200 (marked row present)
unfolding simple
register_student-face_login_example =
    register_student-face_login web decode handler (turn "s1" 10) (turn "a1" 20) (empty, 0) (ok ann)
      photo row 1 2 "bytes" "a.jpg" refl recognition
