-- ===== src/Api/Server.antt =====
-- cmd/api/main.go: the server that runHTTP puts together from the settings, and what it does with a
-- request: corsMiddleware, the limiter, and the handler of the route.
use go_attend.Common.{
  ℕ, String, Bool, Option, none, some, List, [], ◌∷◌, not, ◌&&◌, if◌then◌else◌, ◌==◌, Result,
}
use go_attend.Common.Int.{pos}
use go_attend.Common.Web.{Web}
use go_attend.RateLimit.{
  Float64, SimpleTokenBucket, Verdict, next, too_many_requests, new_simple_token_bucket,
  gin_middleware,
}
use go_attend.Attendance.Tables.{Database, Call}
use go_attend.Attendance.Service.{Service, Attempt, five_minutes, new_service}
use go_attend.Auth.{Jwt, Clock, Admission, unauthorized, admitted, device_auth}
use go_attend.Cloudinary
use go_attend.Cloudinary.Upload.{UploadResult}
use go_attend.Settings.{App}
use go_attend.Worker.{Backend, choose_queue}
use go_attend.Api.{
  Config, Reply, respond, failure, Registering, CheckinRequest, Publisher, healthz, post_register,
  post_checkin, guarded, get_events, get_employees, get_employee_by_id,
}
use go_attend.Api.Headers.{cors_middleware}
use go_attend.Api.Upload.{UploadReply, UploadRequest, post_upload}

-- What runHTTP makes of the settings, and the handlers read.
pub record Server : Type 0 where
  pub config : Config
  pub service : Service
  pub cdn_client : Option Cloudinary.Client
  pub backend : Backend

abbrev pub choose_cloud : App → Option Cloudinary.Client
choose_cloud cfg =
    if not (cfg.cloudinary_cloud_name == "")
      && not (cfg.cloudinary_api_key == "")
      && not (cfg.cloudinary_api_secret == "")
    then some (record {
      cloud_name = cfg.cloudinary_cloud_name;
      api_key = cfg.cloudinary_api_key;
      api_secret = cfg.cloudinary_api_secret;
      folder = cfg.cloudinary_folder;
    })
    else none

unfoldable pub start : App → Server
unfolding new_service choose_queue
start cfg = record {
  config = record {
    jwt_issuer = cfg.jwt_issuer;
    jwt_signing_key = cfg.jwt_signing_key;
    access_ttl = cfg.access_ttl;
    refresh_ttl = cfg.refresh_ttl;
  };
  service = new_service (pos five_minutes);
  cdn_client = choose_cloud cfg;
  backend = choose_queue cfg.queue_backend;
}

unfoldable pub new_limiter : App → SimpleTokenBucket
unfolding new_simple_token_bucket
new_limiter cfg = new_simple_token_bucket cfg.rate_limit_per_min cfg.rate_limit_per_min

-- The Authorization header, and the time at which the token is parsed.
pub record Bearer : Type 0 where
  pub authz : String
  pub now : ℕ

-- The routes, with what the request and the surroundings give to their handler. A page is a static
-- file, the metrics, or none, and has the status that the library answers with.
pub data Route : Type 0 where
  page : ℕ → Route
  health : Bool → Bool → Route
  register : Clock → Registering → Result String → Route
  upload : Bearer → String → UploadRequest → Route
  checkin : Bearer → Attempt → Result CheckinRequest → Route
  events : Bearer → Call → String → String → String → String → Route
  employees : Bearer → Call → Route
  employee : Bearer → Call → String → Route

pub record Request : Type 0 where
  pub method : String
  pub origin : String
  pub client_ip : String
  pub now : ℕ
  pub route : Route

-- The first two are given by a middleware, the others by the route.
pub data Answer : Type 0 where
  preflight : ℕ → Answer
  limited : Answer
  paged : ℕ → Answer
  replied : Reply → Answer
  uploaded : UploadReply → Answer

-- The libraries and services that the server calls.
pub record Outside : Type 1 where
  pub float64 : Float64
  pub jwt : Jwt
  pub queue : Publisher
  pub web : Web
  pub unmarshal : String → Result UploadResult
  pub sha1_hex : String → String
  pub le_name : String → String → Bool

module _ (out : Outside) where
  pub record Running : Type 0 where
    pub limiter : SimpleTokenBucket
    pub db : Database
    pub q : out.queue.Q
    pub world : out.web.World

  abbrev pub with_tables : Running → (Database × out.queue.Q) × Reply → Running × Answer
  with_tables st ((db, q), r) = (record st { db = db; q = q }, replied r)

  unfoldable pub after_auth :
      Server → Running → String → UploadRequest → Admission → Running × Answer
  unfolding post_upload
  after_auth s st timestamp req (unauthorized e) = (st, replied (respond 401 (failure e)))
  after_auth s st timestamp req (admitted claims) =
      let r = post_upload out.web out.unmarshal out.sha1_hex s.cdn_client st.world timestamp req in
      (record st { world = r.0 }, uploaded r.1)

  unfoldable pub admission : Server → Bearer → Admission
  unfolding device_auth
  admission s b = device_auth out.jwt b.now s.config.jwt_signing_key s.config.jwt_issuer b.authz

  -- The handlers of the routes, those of the group behind DeviceAuth.
  unfoldable pub serve : Server → Running → Route → Running × Answer
  unfolding healthz post_register after_auth admission guarded post_checkin get_events get_employees
      get_employee_by_id
  serve s st (page status) = (st, paged status)
  serve s st (health redis_healthy db_healthy) = (st, replied (healthz redis_healthy db_healthy))
  serve s st (register clock calls bound) =
      let r = post_register out.jwt s.config clock calls st.db bound in
      (record st { db = r.0 }, replied r.1)
  serve s st (upload b timestamp req) = after_auth s st timestamp req (admission s b)
  serve s st (checkin b a bound) = with_tables st (
      guarded out.queue (st.db, st.q) (admission s b)
        (λ state claims. post_checkin out.queue s.service a state claims bound))
  serve s st (events b call device_id user_id limit offset) = with_tables st (
      guarded out.queue (st.db, st.q) (admission s b)
        (λ state claims. (state, get_events call state.0 device_id user_id limit offset)))
  serve s st (employees b call) = with_tables st (
      guarded out.queue (st.db, st.q) (admission s b)
        (λ state claims. (state, get_employees out.le_name call state.0)))
  serve s st (employee b call employee_id) = with_tables st (
      guarded out.queue (st.db, st.q) (admission s b)
        (λ state claims. (state, get_employee_by_id call state.0 employee_id)))

  unfoldable pub after_limiter :
      Server → Running → Route → SimpleTokenBucket × Verdict → Running × Answer
  unfolding serve
  after_limiter s st route (l, next) = serve s (record st { limiter = l }) route
  after_limiter s st route (l, too_many_requests) = (record st { limiter = l }, limited)

  unfoldable pub after_cors : Server → Running → Request → Option ℕ → Running × Answer
  unfolding after_limiter gin_middleware
  after_cors s st req (some status) = (st, preflight status)
  after_cors s st req none =
      after_limiter s st req.route (gin_middleware out.float64 st.limiter req.now req.client_ip)

  unfoldable pub handle : Server → Running → Request → Running × Answer
  unfolding after_cors cors_middleware
  handle s st req = after_cors s st req (cors_middleware req.origin req.method).1

  -- The requests, one after the other.
  unfoldable pub run : Server → Running → List Request → Running
  unfolding handle
  run s st [] = st
  run s st (req ∷ rest) = run s (handle s st req).0 rest
