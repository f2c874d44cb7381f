-- ===== src/Simple/Handler.antt =====
-- newGoAttend/backend/internal/handler/handler.go. What gin has bound of a request, or its error, is
-- an argument of a handler; the answer is a status and a body.
use Prim.Native.String
use go_attend.Common.{
  ℕ, String, not, Option, none, some, List, if◌then◌else◌, Result, Done, ok, err,
}
use go_attend.Common.Int.{ℤ}
use go_attend.Common.Sql.{Call}
use go_attend.Common.Web.{Web}
use go_attend.Simple.Number.{atoi_value}
use go_attend.Simple.Store.{
  Student, AttendanceRecord, Store, stamped, create_student, list_students, get_student_by_id,
  mark_attendance, list_attendance,
}
use go_attend.Simple.Clients.{
  FaceClient, RecognizeResult, CloudClient, UploadResult, Decoders, register, recognize, upload,
}

-- The store is the state that each handler is given.
pub record Handler : Type 0 where
  pub cloud : Option CloudClient
  pub face_client : Option FaceClient

pub data Body : Type 0 where
  failure : String → Body
  healthy : Body
  student : Student → Body
  students : List Student → Body
  marked : Student → AttendanceRecord → Body
  records : List AttendanceRecord → Body

pub record Reply : Type 0 where
  pub status : ℕ
  pub body : Body

abbrev pub respond : ℕ → Body → Reply
respond status body = record { status = status; body = body }

abbrev pub healthz : Reply
healthz = respond 200 healthy

pub record RegisterRequest : Type 0 where
  pub name : String
  pub email : String
  pub student_id : String
  pub department : String

-- The file "photo" of a request: FormFile gives its name or an error, and io.ReadAll its bytes.
pub record PhotoPart : Type 0 where
  pub filename : Result String
  pub content : Result String

-- What the surroundings give to one request: the calls of the database, uuid.New and time.Now.
pub record Turn : Type 0 where
  pub fetch : Call
  pub insert : Call
  pub uuid : String
  pub now : ℕ

abbrev pub new_student : RegisterRequest → String → Student
new_student req photo_url = record {
  id = "";
  name = req.name;
  email = req.email;
  student_id = req.student_id;
  department = req.department;
  photo_url = photo_url;
  created_at = 0;
}

module _ (web : Web) (decode : Decoders) where
  abbrev pub State : Type 0
  State = Store × web.World

  -- The face is registered if there is a client; an error is logged only.
  unfoldable pub register_face :
      Option FaceClient → web.World → Student → String → String → web.World
  unfolding register
  register_face none w st content filename = w
  register_face (some c) w st content filename = (register web decode c w st.id content filename).0

  unfoldable pub after_create :
      Handler → web.World → Student → String → String → Store × Done → State × Reply
  unfolding register_face
  after_create h w st content filename (s, err e) =
      ((s, w), respond 409 (failure (String.◌++◌ "student already exists: " e)))
  after_create h w st content filename (s, ok _) =
      ((s, register_face h.face_client w st content filename), respond 201 (student st))

  -- The student is saved, with the address of the photo.
  unfoldable pub save_student :
      Handler → Turn → State → RegisterRequest → String → String → String → State × Reply
  unfolding after_create create_student
  save_student h turn (s, w) req content filename photo_url =
      let st = new_student req photo_url in
      after_create h w (stamped turn.uuid turn.now st) content filename
        (create_student turn.insert s turn.uuid turn.now st)

  unfoldable pub after_upload :
      Handler
      → Turn
      → Store
      → RegisterRequest
      → String
      → String
      → web.World × Result UploadResult
      → State × Reply
  unfolding save_student
  after_upload h turn s req content filename (w, err _) =
      ((s, w), respond 500 (failure "failed to upload photo"))
  after_upload h turn s req content filename (w, ok result) =
      save_student h turn (s, w) req content filename result.secure_url

  unfoldable pub upload_photo :
      Handler
      → Option CloudClient
      → Turn
      → State
      → RegisterRequest
      → String
      → String
      → State × Reply
  unfolding after_upload upload
  upload_photo h none turn state req content filename =
      save_student h turn state req content filename ""
  upload_photo h (some c) turn (s, w) req content filename =
      after_upload h turn s req content filename
        (upload web decode c w content filename "goattend/students")

  -- What follows the binding, on the name and the bytes of the file "photo".
  unfoldable pub after_bind :
      Handler → Turn → State → RegisterRequest → Result String → Result String → State × Reply
  unfolding upload_photo
  after_bind h turn state req (err _) content =
      (state, respond 400 (failure "photo file is required"))
  after_bind h turn state req (ok filename) (err _) =
      (state, respond 500 (failure "failed to read photo"))
  after_bind h turn state req (ok filename) (ok content) =
      upload_photo h h.cloud turn state req content filename

  unfoldable pub register_student :
      Handler → Turn → State → Result RegisterRequest → PhotoPart → State × Reply
  unfolding after_bind
  register_student h turn state (err e) part = (state, respond 400 (failure e))
  register_student h turn state (ok req) part =
      after_bind h turn state req part.filename part.content

  unfoldable pub after_mark : web.World → Student → Store × Result AttendanceRecord → State × Reply
  after_mark w st (s, err _) = ((s, w), respond 500 (failure "failed to mark attendance"))
  after_mark w st (s, ok rec) = ((s, w), respond 200 (marked st (record rec { name = st.name })))

  unfoldable pub after_get : Turn → State → Result (Option Student) → State × Reply
  unfolding after_mark mark_attendance
  after_get turn state (err _) =
      (state, respond 404 (failure "matched student not found in database"))
  after_get turn state (ok none) =
      (state, respond 404 (failure "matched student not found in database"))
  after_get turn (s, w) (ok (some st)) =
      after_mark w st (mark_attendance turn.insert s turn.uuid turn.now st.id)

  unfoldable pub after_recognize : Turn → Store → web.World × Result RecognizeResult → State × Reply
  unfolding after_get get_student_by_id
  after_recognize turn s (w, err _) = ((s, w), respond 500 (failure "face recognition failed"))
  after_recognize turn s (w, ok result) =
      if not result.matched
      then ((s, w), respond 401 (failure "face not recognized"))
      else after_get turn (s, w) (get_student_by_id turn.fetch s result.student_id)

  unfoldable pub recognize_photo :
      Option FaceClient → Turn → State → String → String → State × Reply
  unfolding after_recognize recognize
  recognize_photo none turn state content filename =
      (state, respond 503 (failure "face service not configured"))
  recognize_photo (some c) turn (s, w) content filename =
      after_recognize turn s (recognize web decode c w content filename)

  unfoldable pub after_file : Handler → Turn → State → Result String → Result String → State × Reply
  unfolding recognize_photo
  after_file h turn state (err _) content = (state, respond 400 (failure "photo file is required"))
  after_file h turn state (ok filename) (err _) =
      (state, respond 500 (failure "failed to read photo"))
  after_file h turn state (ok filename) (ok content) =
      recognize_photo h.face_client turn state content filename

  unfoldable pub face_login : Handler → Turn → State → PhotoPart → State × Reply
  unfolding after_file
  face_login h turn state part = after_file h turn state part.filename part.content

unfoldable pub students_reply : Result (List Student) → Reply
students_reply (err e) = respond 500 (failure e)
students_reply (ok found) = respond 200 (students found)

unfoldable pub get_students : Call → Store → Reply
unfolding students_reply list_students
get_students call s = students_reply (list_students call s)

unfoldable pub student_reply : Result (Option Student) → Reply
student_reply (err e) = respond 500 (failure e)
student_reply (ok none) = respond 404 (failure "student not found")
student_reply (ok (some st)) = respond 200 (student st)

unfoldable pub get_student : Call → Store → String → Reply
unfolding student_reply get_student_by_id
get_student call s id = student_reply (get_student_by_id call s id)

unfoldable pub records_reply : Result (List AttendanceRecord) → Reply
records_reply (err e) = respond 500 (failure e)
records_reply (ok found) = respond 200 (records found)

-- The limit of the query string, or "50" where it has none.
unfoldable pub limit_value : Option String → ℤ
unfolding atoi_value
limit_value none = atoi_value "50"
limit_value (some v) = atoi_value v

unfoldable pub get_attendance : Call → Store → Option String → Reply
unfolding records_reply list_attendance limit_value
get_attendance call s limit = records_reply (list_attendance call s (limit_value limit))
