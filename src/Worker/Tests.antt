-- ===== src/Worker/Tests.antt =====
-- cmd/worker/main.go: the worker on a concrete table.
use go_attend.Common.{
  ℕ, suc, String, ◌≡◌, refl, true, false, eq_iff, sym, none, some, List, [], ◌∷◌, ok, err, All,
}
use go_attend.Common.Int.{pos}
use go_attend.Queue.{Message}
use go_attend.Attendance.Tables.{Event, Database, Call}
use go_attend.Attendance.Integrity.{IsConsistent}
use go_attend.Face.Types.{EmbedResult, Net}
use go_attend.Face.Mocks.{mock_compare, mock_enroll, mock_search, mock_verify}
use go_attend.Face.Client.{Client, new}
use go_attend.Worker.{Turn, memory, redis, choose_queue, run}
use go_attend.Worker.Marks.{IsKept}
use go_attend.Worker.Progress.{run-IsKept, Names}

worker : Unit {0}
unfolding run choose_queue
worker = tt

abbrev at : Call
at = record { fault = none; now = 5 }

abbrev turn : Turn
turn = record { fetch = at; mark = at }

abbrev pending : String → Event
pending id = record {
  id = id;
  user_id = "u";
  device_id = "d";
  when = 100;
  location = "gate";
  image_url = "img";
  status = "pending";
  match_score = none;
  created_at = 1;
}

abbrev two_events : Database
two_events = record {
  devices = "d" ∷ [];
  events = pending "e2" ∷ pending "e1" ∷ [];
  refresh_tokens = [];
  employees = [];
}

abbrev one_face : EmbedResult
one_face = record { embedding = 7 ∷ []; score = 9; faces_detected = pos 1; quality = none }

-- A service that finds one face in every image.
abbrev pub one_face_each : Net
one_face_each = record {
  World = ℕ;
  Any = Unit;
  mock_check = tt;
  marshal = λ payload. ok "{}";
  bad_request = λ request. none;
  do_request =
      λ w request. (suc w, ok (record { status_code = 200; status = "200 OK"; body = "" }));
  decode_embed = λ body. ok one_face;
  decode_compare = λ body. ok mock_compare;
  decode_enroll = λ body. ok (mock_enroll "u");
  decode_search = λ body. ok mock_search;
  decode_verify = λ body. ok (mock_verify "u");
  decode_liveness = λ body. err "bad";
}

abbrev pub face : Client
face = new "http://face" false

abbrev rounds : List (Turn × Message)
rounds =
    (turn, record { type = "checkin"; body = "e1" })
    ∷ (turn, record { type = "other"; body = "e2" })
    ∷ []

tests :
    ((run one_face_each face (two_events, 0) rounds).0.events
      ≡ pending "e2" ∷ record (pending "e1") { status = "processed"; match_score = some 9 } ∷ [])
    × ((run one_face_each face (two_events, 0) rounds).1 ≡ 1)
    × (choose_queue "memory" ≡ memory)
    × (choose_queue "redis" ≡ redis (record { key = "attendance:checkins" }))
unfolding worker
tests = (refl, refl, refl, refl)

two_events-IsConsistent : IsConsistent two_events
two_events-IsConsistent = record {
  device_keys = (refl, tt);
  event_keys = (refl, (refl, tt));
  token_keys = tt;
  employee_keys = tt;
  event_devices = (refl, (refl, tt));
  token_devices = tt;
}

run-IsKept_example :
    IsKept two_events (run one_face_each face (two_events, 0) rounds).0
    × IsConsistent (run one_face_each face (two_events, 0) rounds).0
run-IsKept_example = run-IsKept one_face_each face (two_events, 0) rounds two_events-IsConsistent

absurd : true ≡ false → ⊥
absurd e = cc

unnamed : All (λ (r : Turn × Message). Names one_face_each face "e2" r.1 → ⊥) rounds
unnamed = (
  λ h. absurd (sym ((eq_iff "e1" "e2").1 h.1)),
  (λ h. absurd (sym ((eq_iff "other" "checkin").1 h.0)), tt),
)
