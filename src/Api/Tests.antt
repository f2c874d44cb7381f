-- ===== src/Api/Tests.antt =====
-- cmd/api/main.go: the handlers on concrete requests.
use Prim.Native.String
use go_attend.Common.{◌≡◌, refl, true, false, some, none, List, [], ◌∷◌, ◌++◌, ◌⊎◌, ok, arith}
use go_attend.Common.Int.{pos, negsuc}
use go_attend.Queue.{Message}
use go_attend.Attendance.Tables.{Database, Call}
use go_attend.Attendance.Service.{Service, Attempt}
use go_attend.Common.Newest.{order_newest}
use go_attend.Auth.{unauthorized, device_auth}
use go_attend.Auth.Tests.{signer, laws, clock}
use go_attend.Api.{
  failure, events, respond, Config, Registering, CheckinRequest, Publisher, post_register, healthz,
  get_events, get_employee_by_id, guarded, post_checkin, page_value,
}
use go_attend.Api.Number.{atoi}
use go_attend.Api.Headers.{cors_middleware}
use go_attend.Api.Outcome.{answer, IsAccepted, IsRefused, answer-Ends}
use go_attend.Api.Journey.{request, register-checkin}

api : Unit {0}
unfolding post_register healthz get_events get_employee_by_id guarded post_checkin page_value atoi
    cors_middleware order_newest
api = tt

-- A queue that keeps what it is given.
abbrev list_queue : Publisher
list_queue = record { Q = List Message; send = λ q msg. (q ++ msg ∷ [], ok tt) }

abbrev pub at : Call
at = record { fault = none; now = 5 }

abbrev pub calls : Registering
calls = record { upsert = at; save = at }

abbrev cfg : Config
cfg = record {
  jwt_issuer = "goattend";
  jwt_signing_key = "k";
  access_ttl = pos 10;
  refresh_ttl = pos 50;
}

abbrev service : Service
service = record { dedup_window = pos 10 }

abbrev pub attempt : Attempt
attempt = record { asked = at; stamp = 100; stored = at; uuid = "e1" }

abbrev pub empty : Database
empty = record { devices = []; events = []; refresh_tokens = []; employees = [] }

abbrev pub after : Database
after = (post_register signer cfg clock calls empty (ok "d")).0

abbrev gate_request : CheckinRequest
gate_request = request signer cfg clock calls laws list_queue service attempt "u" "d" "gate" "img"

tests :
    ((post_register signer cfg clock calls empty (ok "")).1
      ≡ respond 400 (failure "device id required"))
    × ((healthz true false).status ≡ 503)
    × (atoi "-12" ≡ some (negsuc 11))
    × (atoi "12a" ≡ none)
    × (page_value "" (pos 50) ≡ pos 50)
    × (get_events at empty "" "" "x" "" ≡ respond 200 (events []))
    × ((get_employee_by_id at empty "a").status ≡ 404)
    × ((cors_middleware "" "OPTIONS").1 ≡ some 204)
unfolding api
tests = (refl, refl, refl, refl, refl, refl, refl, refl)

answer-Ends_example :
    (let r = answer list_queue service attempt (after, []) (unauthorized "no") (ok gate_request) in
      IsAccepted list_queue service attempt
        (after, [])
        r.0
        (unauthorized "no")
        (ok gate_request)
        r.1
      ⊎ IsRefused list_queue service attempt (after, []) r.0 r.1)
answer-Ends_example =
    answer-Ends list_queue service attempt (after, []) (unauthorized "no") (ok gate_request)

register-checkin_example :
    (answer list_queue service attempt
      (after, [])
      (device_auth signer 99 "k" "goattend" (String.◌++◌ "Bearer " "x.y.z"))
      (ok gate_request)).1.status
    ≡ 202
unfolding api
register-checkin_example =
    register-checkin signer cfg clock calls laws list_queue service attempt empty after [] "d" "u"
      "gate" "img" "x.y.z" "x.y.z" _ 99 refl (omega arith) refl refl refl refl
