-- ===== src/Api/Journey.antt =====
-- cmd/api/main.go: the registration of a device and a check-in with its token.
use Prim.Native.String
use go_attend.Common.{
  ℕ, ◌<◌, String, ◌≡◌, refl, sym, ap, ◌∙◌, subst, Bool, true, false, not, ◌&&◌, none, ◌==◌, eq_refl,
  Result, Done, ok, err, arith,
}
use go_attend.Common.Int.{ℤ}
use go_attend.Attendance.Tables.{Event, Database, Call, contains}
use go_attend.Attendance.Events.{save_refresh_token}
use go_attend.Attendance.Service.{Service, Attempt, register_device, check_in}
use go_attend.Attendance.Keys.{event_ids}
use go_attend.Attendance.Registration.{registered, check_in-ok}
use go_attend.Auth.{TokenPair, Claims, Jwt, Clock, admitted, add_time, issue, device_auth}
use go_attend.Auth.Tokens.{issue-signed, JwtLaws, device_auth-issue}
use go_attend.Api.{
  tokens, Reply, respond, Config, Registering, CheckinRequest, Publisher, after_issue,
  after_register, post_register, after_check_in, post_checkin, guarded,
}
use go_attend.Api.Outcome.{answer}

save-keeps :
    (call : Call) (db : Database) (device_id token : String) (expires_at : ℕ)
    → ((save_refresh_token call db device_id token expires_at).0.devices ≡ db.devices)
      × ((save_refresh_token call db device_id token expires_at).0.events ≡ db.events)
unfolding save_refresh_token
save-keeps call db device_id token expires_at = ground arith

and_false : (b : Bool) → (b && false) ≡ false
and_false true = refl
and_false false = refl

tokens_access : {t u rt ru : String} {x y : ℤ} → tokens t rt x ≡ tokens u ru y → t ≡ u
tokens_access e = cc

module _ (jwt : Jwt) (cfg : Config) (clock : Clock) (calls : Registering) where
  abbrev issued : String → Result TokenPair
  issued device_id =
      issue jwt clock device_id "device" cfg.jwt_issuer cfg.jwt_signing_key cfg.access_ttl
        cfg.refresh_ttl

  after_issue-created :
      (db db' : Database) (device_id t rt : String) (x : ℤ) (r : Result TokenPair)
      → after_issue calls db device_id r ≡ (db', respond 201 (tokens t rt x))
      → (pair : TokenPair) × (r ≡ ok pair)
        × (pair.access_token ≡ t)
        × (db'.devices ≡ db.devices)
        × (db'.events ≡ db.events)
  unfolding after_issue
  after_issue-created db db' device_id t rt x (err e) h =
      cc (ap (λ (p : Database × Reply). p.1.body) h)
  after_issue-created db db' device_id t rt x (ok pair) h =
      let (devices, events) =
        save-keeps calls.save db device_id pair.refresh_token pair.refresh_exp in
      let same = ap (λ (p : Database × Reply). p.0) h in
      (
        pair,
        refl,
        tokens_access (ap (λ (p : Database × Reply). p.1.body) h),
        ap (λ (d : Database). d.devices) (sym same) ∙ devices,
        ap (λ (d : Database). d.events) (sym same) ∙ events,
      )

  after_register-created :
      (db' : Database) (device_id t rt : String) (x : ℤ) (r : Database × Done)
      → after_register jwt cfg clock calls device_id r ≡ (db', respond 201 (tokens t rt x))
      → (r.1 ≡ ok tt)
        × ((pair : TokenPair) × (issued device_id ≡ ok pair)
            × (pair.access_token ≡ t)
            × (db'.devices ≡ r.0.devices)
            × (db'.events ≡ r.0.events))
  unfolding after_register
  after_register-created db' device_id t rt x (db, err e) h =
      cc (ap (λ (p : Database × Reply). p.1.body) h)
  after_register-created db' device_id t rt x (db, ok tt) h =
      (refl, after_issue-created db db' device_id t rt x (issued device_id) h)

  module _ (laws : JwtLaws jwt) (queue : Publisher) (s : Service) (a : Attempt) where
    abbrev pub request : String → String → String → String → CheckinRequest
    request user_id device_id location image_url = record {
      user_id = user_id;
      device_id = device_id;
      location = location;
      image_url = image_url;
    }

    after_check_in-accepted :
        (q : queue.Q) (r : Database × Result Event) (e : Event)
        → r.1 ≡ ok e
        → (after_check_in queue q r).1.status ≡ 202
    unfolding after_check_in
    after_check_in-accepted q (db, err text) e h = cc
    after_check_in-accepted q (db, ok evt) e h = refl

    checkin-accepted :
        (db : Database) (q : queue.Q) (c : Claims) (user_id device_id location image_url : String)
        (e : Event)
        → c.subject ≡ device_id
        → (check_in s a db user_id device_id location image_url).1 ≡ ok e
        → (answer queue s a
            (db, q)
            (admitted c)
            (ok (request user_id device_id location image_url))).1.status
          ≡ 202
    unfolding guarded post_checkin
    checkin-accepted db q c user_id device_id location image_url e same done = rw same (
        rw (eq_refl device_id) (
          rw (and_false (not (device_id == ""))) (
            after_check_in-accepted q (check_in s a db user_id device_id location image_url) e
              done)))

    -- A device that was registered with 201 can check a user in with the access token of the answer,
    -- until that expires, and is answered by 202, if the database answers and the new id is fresh.
    pub register-checkin :
        (db db' : Database) (q : queue.Q) (device_id user_id location image_url t rt : String)
        (x : ℤ) (now : ℕ)
        → post_register jwt cfg clock calls db (ok device_id) ≡ (db', respond 201 (tokens t rt x))
        → now < jwt.numeric_date (add_time clock.access_base cfg.access_ttl)
        → a.asked.fault ≡ none
        → a.stored.fault ≡ none
        → (user_id == "") ≡ false
        → contains a.uuid (event_ids db.events) ≡ false
        → (answer queue s a
            (db', q)
            (device_auth jwt now cfg.jwt_signing_key cfg.jwt_issuer (String.◌++◌ "Bearer " t))
            (ok (request user_id device_id location image_url))).1.status
          ≡ 202
    unfolding post_register
    register-checkin db db' q device_id user_id location image_url t rt x now h fresh up up' user
          new =
        let r = register_device calls.upsert db device_id in
        let (done, created) = after_register-created db' device_id t rt x r h in
        let (pair, made, access, devices, events) = created in
        let (listed, same, device) = registered calls.upsert db device_id done in
        let (_, _, exp, _) =
          issue-signed jwt laws clock device_id "device" cfg.jwt_issuer cfg.jwt_signing_key
            cfg.access_ttl cfg.refresh_ttl pair made in
        let (c, admits, subject, _) =
          device_auth-issue jwt laws clock device_id "device" cfg.jwt_issuer cfg.jwt_signing_key
            cfg.access_ttl cfg.refresh_ttl pair now made
            (subst (λ y. now < jwt.numeric_date y) (sym exp) fresh) in
        let (e, checked) =
          check_in-ok s a db' user_id device_id location image_url up up' user device
            (ap (contains device_id) devices ∙ listed)
            (ap (λ l. contains a.uuid (event_ids l)) (events ∙ same) ∙ new) in
        rw
          (subst
            (λ y.
              device_auth jwt now cfg.jwt_signing_key cfg.jwt_issuer (String.◌++◌ "Bearer " y)
              ≡ admitted c)
            access admits)
          (checkin-accepted db' q c user_id device_id location image_url e subject checked)
