-- ===== src/Api/Runs.antt =====
-- cmd/api/main.go: the whole server on concrete requests.
use go_attend.Common.{
  ℕ, suc, ◌+◌, ◌-◌, ◌*◌, ◌≤◌, String, ◌≡◌, refl, true, none, List, [], ◌∷◌, ◌++◌, ok, err, arith,
}
use go_attend.Common.Int.{pos, wrap64, ◌+ℤ◌, ◌-ℤ◌}
use go_attend.Common.Dict
use go_attend.Common.Newest.{order_newest}
use go_attend.Common.Web.{Web}
use go_attend.Queue.{Message}
use go_attend.RateLimit.{allow, refill}
use go_attend.RateLimit.Refill.{minute}
use go_attend.RateLimit.Budget.{Within}
use go_attend.RateLimit.Tests.{exact, exact-RoundsDown}
use go_attend.Attendance.Events.{save_refresh_token}
use go_attend.Auth.Tests.{signer, clock}
use go_attend.Cloudinary
use go_attend.Cloudinary.Upload.{UploadResult}
use go_attend.Settings.{App, load}
use go_attend.Api.{Publisher, respond, failure}
use go_attend.Api.Upload.{UploadRequest, failed, post_upload}
use go_attend.Api.Storage
use go_attend.Api.Storage.{post_upload-IsStored}
use go_attend.Api.Server
use go_attend.Api.Server.{
  Server, Request, Route, Answer, page, register, checkin, upload, preflight, limited, paged,
  replied, uploaded, Outside, Running, Bearer, new_limiter, handle, run,
}
use go_attend.Api.Admitted.{asked, handled, handled_bound}
use go_attend.Api.Changes.{Change, handle-Change}
use go_attend.Api.Tests.{calls, empty}

server : Unit {0}
unfolding load post_upload handle run Server.start new_limiter handled asked allow refill Dict.put
    wrap64 ◌+ℤ◌ ◌-ℤ◌ order_newest save_refresh_token
server = tt

abbrev list_queue : Publisher
list_queue = record { Q = List Message; send = λ q msg. (q ++ msg ∷ [], ok tt) }

-- A network that counts its requests and answers each with 200.
abbrev pub web : Web
web = record {
  World = ℕ;
  bad_file = λ file. none;
  bad_url = λ url. none;
  post_form =
      λ w url form. (suc w, ok (record { status_code = 200; status = "200 OK"; body = "{}" }));
}

abbrev pub image : UploadResult
image = record {
  public_id = "p";
  secure_url = "https://img";
  url = "http://img";
  format = "jpg";
  width = pos 1;
  height = pos 1;
  bytes = pos 3;
}

abbrev pub out : Outside
out = record {
  float64 = exact;
  jwt = signer;
  queue = list_queue;
  web = web;
  unmarshal = λ body. ok image;
  sha1_hex = λ s. s;
  le_name = λ a b. true;
}

-- Two requests a minute, and the issuer and the key of the tests of the handlers.
abbrev pub cfg : App
cfg = record (load (λ f taken unit. 0) (λ key. "")) {
  jwt_issuer = "goattend";
  jwt_signing_key = "k";
  access_ttl = pos 10;
  refresh_ttl = pos 50;
  rate_limit_per_min = pos 2;
}

abbrev pub get : ℕ → String → Route → Request
get now ip route = record { method = "GET"; origin = ""; client_ip = ip; now = now; route = route }

abbrev starting : Running out
starting = record { limiter = new_limiter cfg; db = empty; q = []; world = 0 }

abbrev requests : List Request
requests =
    get 0 "a" (page 200)
    ∷ record (get 1 "a" (page 200)) { method = "OPTIONS" }
    ∷ get 2 "a" (register clock calls (ok "d"))
    ∷ get 3 "a" (page 200)
    ∷ get 4 "b" (page 404)
    ∷ []

abbrev client : Cloudinary.Client
client = record { cloud_name = "cloud"; api_key = "key"; api_secret = "secret"; folder = "faces" }

abbrev photo : UploadRequest
photo = record {
  content_type = "multipart/form-data";
  filename = ok "a.jpg";
  content = ok "bytes";
  body = err "EOF";
}

abbrev no_bearer : Bearer
no_bearer = record { authz = ""; now = 9 }

tests :
    ((run out (Server.start cfg) starting requests).db.devices ≡ "d" ∷ [])
    × ((handle out (Server.start cfg) starting (get 0 "a" (upload no_bearer "7" photo))).1
        ≡ replied (respond 401 (failure "missing bearer token")))
    × (handled out (Server.start cfg) starting "a" requests ≡ 2)
    × (post_upload web (λ body. ok image) (λ s. s) none 0 "7" photo
        ≡ (0, failed 503 "image storage not configured"))
unfolding server
tests = (refl, refl, refl, refl)

-- A day later.
abbrev tomorrow : List Request
tomorrow = get 86400000000000 "a" (page 200) ∷ get 86400000000001 "a" (page 200) ∷ []

past-Within : Within 0 86400000000000 (asked requests)
unfolding asked
past-Within = omega arith

tomorrow-Within : Within 86400000000000 86400000000001 (asked tomorrow)
unfolding asked
tomorrow-Within = omega arith

handled_bound_example :
    handled out (Server.start cfg) (run out (Server.start cfg) starting requests) "a" tomorrow
      * minute
    ≤ (2 + 2) * minute + (86400000000001 - 86400000000000) * 2
handled_bound_example =
    handled_bound out cfg 2 starting "a" 86400000000000 86400000000001 requests tomorrow
      exact-RoundsDown refl refl (omega arith) (omega arith) (omega arith) past-Within
      tomorrow-Within (omega arith)

handle-Change_example :
    Change out
      (Server.start cfg)
      starting
      (register clock calls (ok "d"))
      (handle out (Server.start cfg) starting (get 2 "a" (register clock calls (ok "d"))))
handle-Change_example =
    handle-Change out (Server.start cfg) starting (get 2 "a" (register clock calls (ok "d")))

post_upload-IsStored_example :
    Storage.IsStored web (λ body. ok image) (λ s. s) client "7" 0 1 photo image
unfolding server
post_upload-IsStored_example =
    post_upload-IsStored web (λ body. ok image) (λ s. s) client "7" 0 1 photo image refl
