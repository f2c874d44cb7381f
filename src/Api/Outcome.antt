-- ===== src/Api/Outcome.antt =====
-- cmd/api/main.go: what an answer of POST /v1/checkins says of the tables and of the queue.
use go_attend.Common.{
  ◌∷◌, String, ◌≡◌, refl, ap, false, Bool-cases, not, ◌&&◌, inl, inr, ◌⊎◌, ◌==◌, eq_iff, Result, ok,
  err, In, if_induction, arith,
}
use go_attend.Attendance.Tables.{Event, Database}
use go_attend.Attendance.Service.{Service, Attempt}
use go_attend.Attendance.Registration.{IsTruthful, check_in-IsTruthful}
use go_attend.Auth.{Claims, Admission, unauthorized, admitted}
use go_attend.Api.{
  accepted, failure, Reply, respond, CheckinRequest, Publisher, State, after_check_in, post_checkin,
  guarded,
}

module _ (queue : Publisher) (s : Service) (a : Attempt) where
  abbrev pub answer : State queue → Admission → Result CheckinRequest → State queue × Reply
  answer state admission req =
      guarded queue state admission (λ state' claims. post_checkin queue s a state' claims req)

  -- An accepted check-in of the request: the event of the answer stands in the table, is of the user
  -- and the device of the request, for which the token speaks, and its id was given to Publish, whose
  -- error is only logged.
  pub record IsAccepted (state state' : State queue) (admission : Admission)
      (bound : Result CheckinRequest) (r : Reply) : Type 0 where
    pub claims : Claims
    pub authorized : admission ≡ admitted claims
    pub req : CheckinRequest
    pub parsed : bound ≡ ok req
    pub evt : Event
    pub body : r ≡ respond 202 (accepted evt.id evt.when evt.status)
    pub present : In evt state'.0.events
    pub user : evt.user_id ≡ req.user_id
    pub device : evt.device_id ≡ req.device_id
    pub speaks : (claims.subject ≡ "") ⊎ (claims.subject ≡ req.device_id)
    pub growth : (state'.0 ≡ state.0) ⊎ (state'.0.events ≡ evt ∷ state.0.events)
    pub given : state'.1 ≡ (queue.send state.1 (record { type = "checkin"; body = evt.id })).0

  -- A refused request: the tables and the queue are as before, and the answer is an error.
  pub record IsRefused (state state' : State queue) (r : Reply) : Type 0 where
    pub text : String
    pub code : (r.status ≡ 400) ⊎ ((r.status ≡ 401) ⊎ (r.status ≡ 403))
    pub says : r ≡ respond r.status (failure text)
    pub untouched : state' ≡ state

  abbrev Ends : State queue → Admission → Result CheckinRequest → State queue × Reply → Type 0
  Ends state admission bound (state', r) =
      IsAccepted state state' admission bound r ⊎ IsRefused state state' r

  test_passes :
      (subject device_id : String)
      → (not (subject == "") && not (subject == device_id)) ≡ false
      → (subject ≡ "") ⊎ (subject ≡ device_id)
  test_passes subject device_id h = elim (Bool-cases (subject == "")) [
    | inl e ↦ inl ((eq_iff subject "").0 e)
    | inr e ↦ inr ((eq_iff subject device_id).0 (ground (arith, e, h)))
  ]

  after_check_in-Ends :
      (db : Database) (q : queue.Q) (claims : Claims) (req : CheckinRequest)
      (r : Database × Result Event)
      → (claims.subject ≡ "") ⊎ (claims.subject ≡ req.device_id)
      → IsTruthful db req.user_id req.device_id r.0 r.1
      → Ends (db, q) (admitted claims) (ok req) (after_check_in queue q r)
  unfolding after_check_in
  after_check_in-Ends db q claims req (db', err text) speaks same =
      inr (record { text = text; code = inl refl; says = refl; untouched = ap (λ d. (d, q)) same })
  after_check_in-Ends db q claims req (db', ok evt) speaks (present, user, device, growth) =
      inl (record {
        claims = claims;
        authorized = refl;
        req = req;
        parsed = refl;
        evt = evt;
        body = refl;
        present = present;
        user = user;
        device = device;
        speaks = speaks;
        growth = growth;
        given = refl;
      })

  -- A request for a check-in ends in one of two ways. Either it is answered by 202: it was authorized
  -- for the device of the request, the event of the answer stands in the table, is of the user and the
  -- device of the request, was there before or is the only new one, and its id was given to Publish, also
  -- where that fails, which is only logged. Or it is answered by 400, 401 or 403 with an error, and the
  -- tables and the queue are as before.
  pub answer-Ends :
      (state : State queue) (admission : Admission) (bound : Result CheckinRequest)
      → (let r = answer state admission bound in
          IsAccepted state r.0 admission bound r.1 ⊎ IsRefused state r.0 r.1)
  unfolding guarded post_checkin
  answer-Ends state (unauthorized e) bound =
      inr (record { text = e; code = inr (inl refl); says = refl; untouched = refl })
  answer-Ends state (admitted claims) (err e) =
      inr (record { text = e; code = inl refl; says = refl; untouched = refl })
  answer-Ends (db, q) (admitted claims) (ok req) =
      if_induction (Ends (db, q) (admitted claims) (ok req))
        (not (claims.subject == "") && not (claims.subject == req.device_id)) _ _
        (λ _. inr (record {
          text = "device mismatch";
          code = inr (inr refl);
          says = refl;
          untouched = refl;
        }))
        (λ e.
          after_check_in-Ends db q claims req _ (test_passes claims.subject req.device_id e)
            (check_in-IsTruthful s a db req.user_id req.device_id req.location req.image_url))
