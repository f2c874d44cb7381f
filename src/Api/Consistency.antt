-- ===== src/Api/Consistency.antt =====
-- cmd/api/main.go: every request keeps the keys and the references of the tables.
use go_attend.Common.{
  String, Option, none, some, Result, ok, err, ◌==◌, ◌||◌, not, ◌&&◌, if_induction, ℕ,
}
use go_attend.Attendance.Tables.{Event, Database}
use go_attend.Attendance.Integrity.{
  IsConsistent, Write-IsConsistent, put_device, put_token, put_event,
}
use go_attend.Attendance.Service.{Service, Attempt, new_event, after_recent, check_in}
use go_attend.Auth.{Claims, Admission, unauthorized, admitted}
use go_attend.RateLimit.{SimpleTokenBucket, Verdict, gin_middleware, next, too_many_requests}
use go_attend.Api.{Reply, Publisher, State, CheckinRequest, guarded, after_check_in, post_checkin}
use go_attend.Api.Headers.{cors_middleware}
use go_attend.Api.Registration.{post_register-keeps}
use go_attend.Api.Upload.{UploadRequest}
use go_attend.Api.Server.{
  Server, Request, Route, page, health, register, upload, checkin, events, employees, employee,
  Outside, Running, handle, serve, after_auth, admission, after_limiter, after_cors,
}

after_recent-IsConsistent :
    (a : Attempt) (db : Database) (evt : Event) (r : Result (Option Event))
    → IsConsistent db
    → IsConsistent (after_recent a db evt r).0
unfolding after_recent
after_recent-IsConsistent a db evt (err e) h = h
after_recent-IsConsistent a db evt (ok (some recent)) h = h
after_recent-IsConsistent a db evt (ok none) h =
    Write-IsConsistent db _ (put_event a.stored a.uuid a.stamp evt) h

check_in-IsConsistent :
    (s : Service) (a : Attempt) (db : Database) (user_id device_id location image_url : String)
    → IsConsistent db
    → IsConsistent (check_in s a db user_id device_id location image_url).0
unfolding check_in
check_in-IsConsistent s a db user_id device_id location image_url h =
    if_induction (λ (r : Database × Result Event). IsConsistent r.0)
      (user_id == "" || device_id == "") _ _ (λ _. h)
      λ _. after_recent-IsConsistent a db (new_event a user_id device_id location image_url) _ h

module _ (queue : Publisher) (s : Service) (a : Attempt) where
  after_check_in-IsConsistent :
      (q : queue.Q) (r : Database × Result Event)
      → IsConsistent r.0
      → IsConsistent (after_check_in queue q r).0.0
  unfolding after_check_in
  after_check_in-IsConsistent q (db, err e) h = h
  after_check_in-IsConsistent q (db, ok evt) h = h

  post_checkin-IsConsistent :
      (state : State queue) (claims : Claims) (bound : Result CheckinRequest)
      → IsConsistent state.0
      → IsConsistent (post_checkin queue s a state claims bound).0.0
  unfolding post_checkin
  post_checkin-IsConsistent (db, q) claims (err e) h = h
  post_checkin-IsConsistent (db, q) claims (ok req) h =
      if_induction (λ (r : State queue × Reply). IsConsistent r.0.0)
        (not (claims.subject == "") && not (claims.subject == req.device_id)) _ _ (λ _. h)
        λ _.
          after_check_in-IsConsistent q _
            (check_in-IsConsistent s a db req.user_id req.device_id req.location req.image_url h)

guarded-IsConsistent :
    (queue : Publisher) (state : State queue) (a : Admission)
    (handler : State queue → Claims → State queue × Reply)
    → ((claims : Claims) → IsConsistent (handler state claims).0.0)
    → IsConsistent state.0
    → IsConsistent (guarded queue state a handler).0.0
unfolding guarded
guarded-IsConsistent queue state (unauthorized e) handler kept h = h
guarded-IsConsistent queue state (admitted claims) handler kept h = kept claims

module _ (out : Outside) (s : Server) where
  after_auth-IsConsistent :
      (st : Running out) (timestamp : String) (req : UploadRequest) (a : Admission)
      → IsConsistent st.db
      → IsConsistent (after_auth out s st timestamp req a).0.db
  unfolding after_auth
  after_auth-IsConsistent st timestamp req (unauthorized e) h = h
  after_auth-IsConsistent st timestamp req (admitted claims) h = h

  serve-IsConsistent :
      (st : Running out) (route : Route)
      → IsConsistent st.db
      → IsConsistent (serve out s st route).0.db
  unfolding serve
  serve-IsConsistent st (page status) h = h
  serve-IsConsistent st (health redis_healthy db_healthy) h = h
  serve-IsConsistent st (register clock calls bound) h =
      post_register-keeps IsConsistent
        (λ call db device_id before. Write-IsConsistent db _ (put_device call device_id) before)
        (λ call db device_id token expires_at before.
          Write-IsConsistent db _ (put_token call device_id token expires_at) before)
        out.jwt s.config clock calls st.db bound h
  serve-IsConsistent st (upload b timestamp req) h =
      after_auth-IsConsistent st timestamp req (admission out s b) h
  serve-IsConsistent st (checkin b a bound) h =
      guarded-IsConsistent out.queue (st.db, st.q) (admission out s b) _
        (λ claims. post_checkin-IsConsistent out.queue s.service a (st.db, st.q) claims bound h) h
  serve-IsConsistent st (events b call device_id user_id limit offset) h =
      guarded-IsConsistent out.queue (st.db, st.q) (admission out s b) _ (λ claims. h) h
  serve-IsConsistent st (employees b call) h =
      guarded-IsConsistent out.queue (st.db, st.q) (admission out s b) _ (λ claims. h) h
  serve-IsConsistent st (employee b call employee_id) h =
      guarded-IsConsistent out.queue (st.db, st.q) (admission out s b) _ (λ claims. h) h

  after_limiter-IsConsistent :
      (st : Running out) (route : Route) (r : SimpleTokenBucket × Verdict)
      → IsConsistent st.db
      → IsConsistent (after_limiter out s st route r).0.db
  unfolding after_limiter
  after_limiter-IsConsistent st route (l, next) h =
      serve-IsConsistent (record st { limiter = l }) route h
  after_limiter-IsConsistent st route (l, too_many_requests) h = h

  after_cors-IsConsistent :
      (st : Running out) (req : Request) (stopped : Option ℕ)
      → IsConsistent st.db
      → IsConsistent (after_cors out s st req stopped).0.db
  unfolding after_cors
  after_cors-IsConsistent st req (some status) h = h
  after_cors-IsConsistent st req none h =
      after_limiter-IsConsistent st req.route
        (gin_middleware out.float64 st.limiter req.now req.client_ip) h

  pub handle-IsConsistent :
      (st : Running out) (req : Request)
      → IsConsistent st.db
      → IsConsistent (handle out s st req).0.db
  unfolding handle
  handle-IsConsistent st req h =
      after_cors-IsConsistent st req (cors_middleware req.origin req.method).1 h
