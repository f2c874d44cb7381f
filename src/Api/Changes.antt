-- ===== src/Api/Changes.antt =====
-- cmd/api/main.go: which requests change the tables and the queue.
use go_attend.Common.{String, ◌≡◌, refl, inl, inr, Result, ok, err, Option, none, some, ℕ}
use go_attend.Attendance.Tables.{Database}
use go_attend.Attendance.Service.{Attempt}
use go_attend.Auth.{Admission, unauthorized, admitted, Clock}
use go_attend.RateLimit.{SimpleTokenBucket, Verdict, gin_middleware, next, too_many_requests}
use go_attend.Api.{
  Registering, Reply, post_register, CheckinRequest, guarded, get_events, get_employees,
  get_employee_by_id,
}
use go_attend.Api.Outcome.{IsAccepted, answer-Ends}
use go_attend.Api.Headers.{cors_middleware}
use go_attend.Api.Registration.{SameRows, post_register-SameRows}
use go_attend.Api.Upload.{UploadRequest}
use go_attend.Api.Server.{
  Server, Request, Route, page, health, register, upload, checkin, events, employees, employee,
  Answer, replied, Bearer, with_tables, Outside, Running, handle, serve, after_auth, admission,
  after_limiter, after_cors,
}

module _ (out : Outside) (s : Server) where
  abbrev pub tables : Running out → Database × out.queue.Q
  tables st = (st.db, st.q)

  pub record IsRegistration (st : Running out) (route : Route) (st' : Running out) : Type 0 where
    pub clock : Clock
    pub calls : Registering
    pub device_id : String
    pub asks : route ≡ register clock calls (ok device_id)
    pub rows : SameRows st.db st'.db
    pub queue : st'.q ≡ st.q

  pub record IsCheckin (st : Running out) (route : Route) (st' : Running out) (a : Answer)
      : Type 0 where
    pub bearer : Bearer
    pub attempt : Attempt
    pub bound : Result CheckinRequest
    pub asks : route ≡ checkin bearer attempt bound
    pub reply : Reply
    pub replies : a ≡ replied reply
    pub accepted :
        IsAccepted out.queue s.service attempt
          (tables st)
          (tables st')
          (admission out s bearer)
          bound
          reply

  -- What a request does to the tables and the queue.
  pub data Change (st : Running out) (route : Route) : Running out × Answer → Type 0 where
    nothing : (st' : Running out) (a : Answer) → tables st' ≡ tables st → Change st route (st', a)
    registers :
        (st' : Running out) (a : Answer) → IsRegistration st route st' → Change st route (st', a)
    checks_in :
        (st' : Running out) (a : Answer) → IsCheckin st route st' a → Change st route (st', a)

  upload-Change :
      (st : Running out) (route : Route) (timestamp : String) (req : UploadRequest) (a : Admission)
      → Change st route (after_auth out s st timestamp req a)
  unfolding after_auth
  upload-Change st route timestamp req (unauthorized e) = nothing _ _ refl
  upload-Change st route timestamp req (admitted claims) = nothing _ _ refl

  -- A handler that only reads, behind DeviceAuth.
  reading-Change :
      (st : Running out) (route : Route) (reply : Database → Reply) (a : Admission)
      → Change st route (
          with_tables out st
            (guarded out.queue (tables st) a (λ state claims. (state, reply state.0))))
  unfolding guarded
  reading-Change st route reply (unauthorized e) = nothing _ _ refl
  reading-Change st route reply (admitted claims) = nothing _ _ refl

  checkin-Change :
      (st : Running out) (b : Bearer) (attempt : Attempt) (bound : Result CheckinRequest)
      → Change st (checkin b attempt bound) (serve out s st (checkin b attempt bound))
  unfolding serve
  checkin-Change st b attempt bound =
      elim (answer-Ends out.queue s.service attempt (tables st) (admission out s b) bound) [
        | inl accepted ↦ checks_in _ _ (record {
          bearer = b;
          attempt = attempt;
          bound = bound;
          asks = refl;
          reply = _;
          replies = refl;
          accepted = accepted;
        })
        | inr refused ↦ nothing _ _ refused.untouched
      ]

  register-Change :
      (st : Running out) (clock : Clock) (calls : Registering) (bound : Result String)
      → Change st (register clock calls bound) (serve out s st (register clock calls bound))
  unfolding serve post_register
  register-Change st clock calls (err e) = nothing _ _ refl
  register-Change st clock calls (ok device_id) = registers _ _ (record {
    clock = clock;
    calls = calls;
    device_id = device_id;
    asks = refl;
    rows = post_register-SameRows out.jwt s.config clock calls st.db (ok device_id);
    queue = refl;
  })

  pub serve-Change : (st : Running out) (route : Route) → Change st route (serve out s st route)
  unfolding serve
  serve-Change st (page status) = nothing _ _ refl
  serve-Change st (health redis_healthy db_healthy) = nothing _ _ refl
  serve-Change st (register clock calls bound) = register-Change st clock calls bound
  serve-Change st (upload b timestamp req) =
      upload-Change st (upload b timestamp req) timestamp req (admission out s b)
  serve-Change st (checkin b attempt bound) = checkin-Change st b attempt bound
  serve-Change st (events b call device_id user_id limit offset) =
      reading-Change st _ (λ db. get_events call db device_id user_id limit offset)
        (admission out s b)
  serve-Change st (employees b call) =
      reading-Change st _ (λ db. get_employees out.le_name call db) (admission out s b)
  serve-Change st (employee b call employee_id) =
      reading-Change st _ (λ db. get_employee_by_id call db employee_id) (admission out s b)

  -- The limiter is no part of what a change is about.
  from_limiter :
      (st : Running out) (l : SimpleTokenBucket) (route : Route) (r : Running out × Answer)
      → Change (record st { limiter = l }) route r
      → Change st route r
  from_limiter st l route _ (nothing st' a same) = nothing st' a same
  from_limiter st l route _ (registers st' a h) = registers st' a (record {
    clock = h.clock;
    calls = h.calls;
    device_id = h.device_id;
    asks = h.asks;
    rows = h.rows;
    queue = h.queue;
  })
  from_limiter st l route _ (checks_in st' a h) = checks_in st' a (record {
    bearer = h.bearer;
    attempt = h.attempt;
    bound = h.bound;
    asks = h.asks;
    reply = h.reply;
    replies = h.replies;
    accepted = h.accepted;
  })

  after_limiter-Change :
      (st : Running out) (route : Route) (r : SimpleTokenBucket × Verdict)
      → Change st route (after_limiter out s st route r)
  unfolding after_limiter
  after_limiter-Change st route (l, next) =
      from_limiter st l route _ (serve-Change (record st { limiter = l }) route)
  after_limiter-Change st route (l, too_many_requests) = nothing _ _ refl

  after_cors-Change :
      (st : Running out) (req : Request) (stopped : Option ℕ)
      → Change st req.route (after_cors out s st req stopped)
  unfolding after_cors
  after_cors-Change st req (some status) = nothing _ _ refl
  after_cors-Change st req none =
      after_limiter-Change st req.route
        (gin_middleware out.float64 st.limiter req.now req.client_ip)

  -- Of all requests only two kinds change the tables or the queue: a registration, with a bound device,
  -- which touches neither events, employees nor the queue, and a check-in that is accepted, whose token
  -- is valid and has the device, or nothing, as its subject. What a middleware stops, a route that is
  -- behind DeviceAuth without a valid token, every read and every upload leave them as they are.
  pub handle-Change : (st : Running out) (req : Request) → Change st req.route (handle out s st req)
  unfolding handle
  handle-Change st req = after_cors-Change st req (cors_middleware req.origin req.method).1
