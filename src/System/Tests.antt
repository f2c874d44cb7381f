-- ===== src/System/Tests.antt =====
-- cmd/api/main.go and cmd/worker/main.go: a registration, a check-in and a round of the worker.
use go_attend.Common.{String, ◌≡◌, refl, false, some, [], ◌∷◌, ok}
use go_attend.Common.Int.{wrap64, ◌+ℤ◌, ◌-ℤ◌}
use go_attend.Common.Dict
use go_attend.Common.Newest.{order_newest}
use go_attend.RateLimit.{allow, refill}
use go_attend.Queue.{Message, new_redis_queue, publish, round_of, emit}
use go_attend.Queue.Tests.{one_list, one_list_laws, pop}
use go_attend.Queue.Losses.{LpushFails}
use go_attend.Attendance.Tables.{Event}
use go_attend.Attendance.Events.{insert_event, get_event, save_refresh_token}
use go_attend.Attendance.Service.{new_event}
use go_attend.Attendance.Outcome.{stored_event}
use go_attend.Auth.Tests.{clock}
use go_attend.Face.Client.{embed_with_score}
use go_attend.Worker.{Turn, process}
use go_attend.Worker.Marks.{settled}
use go_attend.Worker.Tests.{one_face_each, face}
use go_attend.Api.Server
use go_attend.Api.Server.{register, checkin, Request, Running, Bearer, new_limiter, handle}
use go_attend.Api.Tests.{at, calls, attempt, empty}
use go_attend.Api.Runs.{out, cfg, get}
use go_attend.System.{
  Setting, outside, System, after_pop, after_process, Reach, here, then, answers, stores,
  after_write, receives,
}
use go_attend.System.Soundness.{IsSound, Reach-IsSound}
use go_attend.System.Settling.{Reach-settled}

-- What the evaluation of a run opens.
system : Unit {0}
unfolding handle Server.start new_limiter allow refill Dict.put wrap64 ◌+ℤ◌ ◌-ℤ◌ order_newest pop
    round_of new_redis_queue process save_refresh_token publish get_event
system = tt

abbrev setting : Setting
setting = record {
  client = one_list;
  queue = new_redis_queue "attendance:checkins";
  out = out;
  server = Server.start cfg;
  net = one_face_each;
  face = face;
}

abbrev start : System setting
start = record {
  running = record { limiter = new_limiter cfg; db = empty; q = []; world = 0 };
  sending = [];
  held = [];
  faces = 0;
}

abbrev registering : Request
registering = get 0 "a" (register clock calls (ok "d"))

abbrev checking_in : Request
checking_in = get 1 "a" (
    checkin (record { authz = "Bearer x.y.z"; now = 99 }) attempt
      (ok (record { user_id = "u"; device_id = "d"; location = "gate"; image_url = "img" })))

abbrev answered : System setting → Request → System setting
answered x req = record x { running = (handle (outside setting) setting.server x.running req).0 }

abbrev checked_in : System setting
checked_in = answered (answered start registering) checking_in

abbrev sent : Message
sent = record { type = "checkin"; body = "e1" }

received : round_of false (pop "attendance:checkins" checked_in.running.q).1 ≡ emit sent
unfolding system
received = refl

abbrev received_one : System setting
received_one = after_pop setting checked_in (sent ∷ [])

received_one-Reach : Reach setting start received_one
unfolding new_redis_queue
received_one-Reach =
    then checked_in _
      (then (answered start registering) _ (then start _ here (answers registering))
        (answers checking_in))
      (receives false sent received)

one_list_fails : LpushFails one_list one_list_laws
one_list_fails s k v s' e h = cc

start-IsSound : IsSound setting one_list_laws start
start-IsSound = record {
  consistent = record {
    device_keys = tt;
    event_keys = tt;
    token_keys = tt;
    employee_keys = tt;
    event_devices = tt;
    token_devices = tt;
  };
  queued_named = tt;
  sending_stored = tt;
  held_named = tt;
}

Reach-IsSound_example : IsSound setting one_list_laws received_one
Reach-IsSound_example =
    Reach-IsSound setting one_list_laws one_list_fails start received_one received_one-Reach
      start-IsSound

abbrev turn : Turn
turn = record { fetch = at; mark = at }

-- The run ends with the event processed.
tests :
    get_event at (after_process setting received_one turn sent []).running.db "e1"
    ≡ ok (record {
      id = "e1";
      user_id = "u";
      device_id = "d";
      when = 100;
      location = "gate";
      image_url = "img";
      status = "processed";
      match_score = some 9;
      created_at = 5;
    })
unfolding system
tests = refl

Reach-settled_example :
    (e : Event) × (get_event at received_one.running.db "e1" ≡ ok e)
    × (get_event at (after_process setting received_one turn sent []).running.db "e1"
        ≡ ok (settled (embed_with_score one_face_each face received_one.faces e.image_url).1 e))
Reach-settled_example =
    Reach-settled setting one_list_laws start received_one turn at sent [] one_list_fails
      start-IsSound received_one-Reach refl refl refl refl refl

abbrev asking : Event
asking = new_event attempt "u" "d" "gate" "img"

abbrev first_row : Event
first_row = stored_event attempt "u" "d" "gate" "img"

abbrev second_row : Event
second_row = record first_row { id = "e2" }

abbrev one_more : System setting → String → System setting
one_more x uuid =
    after_write setting x (insert_event at x.running.db uuid 100 asking).0 (uuid ∷ x.sending)

-- Two check-ins of one user on one device, of which each has looked for a recent event before the other
-- has stored its own, both store one, at the same time.
race :
    Reach setting start (one_more (one_more (answered start registering) "e1") "e2")
    × ((one_more (one_more (answered start registering) "e1") "e2").running.db.events
        ≡ second_row ∷ first_row ∷ [])
unfolding system insert_event
race = (
  then (one_more (answered start registering) "e1") _
      (then (answered start registering) _ (then start _ here (answers registering))
        (stores at "e1" 100 asking first_row refl))
      (stores at "e2" 100 asking second_row refl),
  refl,
)
