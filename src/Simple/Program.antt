-- ===== src/Simple/Program.antt =====
-- newGoAttend/backend/internal/config/config.go and cmd/server/main.go: the settings of the second
-- server, what it makes of them, and its routes under /api.
use go_attend.Common.{String, Option, none, some, if◌then◌else◌, ◌==◌, Result, ok, err}
use go_attend.Common.Sql.{Call}
use go_attend.Common.Web.{Web}
use go_attend.Settings.{get_env}
use go_attend.Simple.Clients.{Decoders, Url, new_cloud}
use go_attend.Simple.Handler.{
  Handler, RegisterRequest, PhotoPart, Turn, Reply, State, healthz, register_student, face_login,
  get_students, get_student, get_attendance,
}

pub record Config : Type 0 where
  pub port : String
  pub db_path : String
  pub upload_dir : String
  pub frontend_dir : String
  pub cloudinary_url : String
  pub face_service_url : String

unfoldable pub load : (String → String) → Config
unfolding get_env
load getenv = record {
  port = get_env getenv "PORT" "8080";
  db_path = get_env getenv "DB_PATH" "./goattend.db";
  upload_dir = get_env getenv "UPLOAD_DIR" "./uploads";
  frontend_dir = get_env getenv "FRONTEND_DIR" "../frontend";
  cloudinary_url = get_env getenv "CLOUDINARY_URL" "";
  face_service_url = get_env getenv "FACE_SERVICE_URL" "http://localhost:8000";
}

abbrev pub usable : {A : Type 0} → Result A → Option A
usable (err _) = none
usable (ok a) = some a

-- The handler, over url.Parse; a URL that is not accepted leaves uploads off.
unfoldable pub start : (String → Result Url) → Config → Handler
unfolding new_cloud
start parse_url cfg = record {
  cloud =
      if cfg.cloudinary_url == "" then none else usable (new_cloud parse_url cfg.cloudinary_url);
  face_client = some (record { base_url = cfg.face_service_url });
}

-- The routes, with what the request and the surroundings give to their handler.
pub data Route : Type 0 where
  health : Route
  post_student : Turn → Result RegisterRequest → PhotoPart → Route
  all_students : Call → Route
  one_student : Call → String → Route
  post_login : Turn → PhotoPart → Route
  attendance : Call → Option String → Route

module _ (web : Web) (decode : Decoders) where
  unfoldable pub serve : Handler → State web decode → Route → State web decode × Reply
  unfolding register_student get_students get_student face_login get_attendance
  serve h state health = (state, healthz)
  serve h state (post_student turn bound part) = register_student web decode h turn state bound part
  serve h state (all_students call) = (state, get_students call state.0)
  serve h state (one_student call id) = (state, get_student call state.0 id)
  serve h state (post_login turn part) = face_login web decode h turn state part
  serve h state (attendance call limit) = (state, get_attendance call state.0 limit)
