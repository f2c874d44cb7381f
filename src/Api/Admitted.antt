-- ===== src/Api/Admitted.antt =====
-- cmd/api/main.go: how many requests of one address get past the middlewares.
use go_attend.Common.{
  ap, sym, subst, ℕ, suc, ◌*◌, ◌+◌, ◌-◌, ◌^◌, ◌≤◌, ◌<◌, String, ◌≡◌, refl, ◌∙◌, Bool, true, false,
  Bool-cases, inl, inr, List, [], ◌∷◌, ◌&&◌, if◌then◌else◌, ◌==◌, arith,
}
use go_attend.Common.Int.{pos}
use go_attend.Auth.{Admission, unauthorized, admitted}
use go_attend.Api.Upload.{UploadRequest}
use go_attend.Api.Headers.{cors_middleware}
use go_attend.RateLimit.{next, too_many_requests, SimpleTokenBucket, allow, gin_middleware}
use go_attend.RateLimit.Refill.{RoundsDown, minute}
use go_attend.RateLimit.Invariant.{IsFilled, IsFilled-later, allow-IsFilled}
use go_attend.RateLimit.Budget.{Within-le, passed, Within}
use go_attend.RateLimit.Bound.{rate_bound}
use go_attend.Settings.{App}
use go_attend.Api.Server
use go_attend.Api.Server.{
  admission, after_auth, register, upload, checkin, health, page, events, employees, employee, run,
  Server, Request, Answer, preflight, limited, paged, replied, uploaded, Outside, Running, Route,
  new_limiter, handle, serve, after_limiter, after_cors, with_tables,
}

-- The address that the limiter keeps a bucket for.
abbrev pub key_of : Request → String
key_of req = if req.client_ip == "" then "unknown" else req.client_ip

-- Whether a request has got past the middlewares.
unfoldable pub is_handled : Answer → Bool
is_handled (preflight status) = false
is_handled limited = false
is_handled (paged status) = true
is_handled (replied r) = true
is_handled (uploaded r) = true

-- The requests that the limiter is asked about.
unfoldable pub asked : List Request → List (ℕ × String)
asked [] = []
asked (req ∷ rest) =
    if req.method == "OPTIONS" then asked rest else ((req.now, key_of req) ∷ asked rest)

uncounted : (b : Bool) (n : ℕ) → (if b && false then suc n else n) ≡ n
uncounted b n = ground arith

module _ (out : Outside) (s : Server) where
  -- The number of requests of an address that get past the middlewares.
  unfoldable pub handled : Running out → String → List Request → ℕ
  unfolding is_handled
  handled st key [] = 0
  handled st key (req ∷ rest) =
      let r = handle out s st req in
      let later = handled r.0 key rest in
      if key_of req == key && is_handled r.1 then suc later else later

  after_auth-limiter :
      (st : Running out) (timestamp : String) (req : UploadRequest) (a : Admission)
      → ((after_auth out s st timestamp req a).0.limiter ≡ st.limiter)
        × (is_handled (after_auth out s st timestamp req a).1 ≡ true)
  unfolding after_auth is_handled
  after_auth-limiter st timestamp req (unauthorized e) = (refl, refl)
  after_auth-limiter st timestamp req (admitted claims) = (refl, refl)

  -- The routes do not touch the limiter, and what they answer is no answer of a middleware.
  serve-limiter :
      (st : Running out) (route : Route)
      → ((serve out s st route).0.limiter ≡ st.limiter)
        × (is_handled (serve out s st route).1 ≡ true)
  unfolding serve is_handled
  serve-limiter st (page status) = (refl, refl)
  serve-limiter st (health redis_healthy db_healthy) = (refl, refl)
  serve-limiter st (register clock calls bound) = (refl, refl)
  serve-limiter st (upload b timestamp req) =
      after_auth-limiter st timestamp req (admission out s b)
  serve-limiter st (checkin b a bound) = (refl, refl)
  serve-limiter st (events b call device_id user_id limit offset) = (refl, refl)
  serve-limiter st (employees b call) = (refl, refl)
  serve-limiter st (employee b call employee_id) = (refl, refl)

  abbrev limit : Running out → Request → SimpleTokenBucket × Bool
  limit st req = allow out.float64 st.limiter req.now (key_of req)

  after_limiter-allow :
      (st : Running out) (route : Route) (l : SimpleTokenBucket) (allowed : Bool)
      → let r = after_limiter out s st route (l, if allowed then next else too_many_requests) in
        (r.0.limiter ≡ l) × (is_handled r.1 ≡ allowed)
  unfolding after_limiter is_handled
  after_limiter-allow st route l true = serve-limiter (record st { limiter = l }) route
  after_limiter-allow st route l false = (refl, refl)

  -- A request that is not a preflight is handled as the limiter allows.
  handle-allow :
      (st : Running out) (req : Request)
      → (req.method == "OPTIONS") ≡ false
      → let r = handle out s st req in
        (r.0.limiter ≡ (limit st req).0) × (is_handled r.1 ≡ (limit st req).1)
  unfolding handle after_cors cors_middleware gin_middleware
  handle-allow st req other =
      rw other (after_limiter-allow st req.route (limit st req).0 (limit st req).1)

  handle-preflight :
      (st : Running out) (req : Request)
      → (req.method == "OPTIONS") ≡ true
      → handle out s st req ≡ (st, preflight 204)
  unfolding handle after_cors cors_middleware
  handle-preflight st req options = rw options refl

  handled-passed :
      (st : Running out) (key : String) (reqs : List Request)
      → handled st key reqs ≡ passed out.float64 st.limiter key (asked reqs)
  unfolding handled passed asked
  handled-passed st key [] = refl
  handled-passed st key (req ∷ rest) = elim (Bool-cases (req.method == "OPTIONS")) [
    | inl options ↦
        rw (handle-preflight st req options, options)
          (uncounted (key_of req == key) (handled st key rest) ∙ handled-passed st key rest)
    | inr other ↦
        let (limiter, allowed) = handle-allow st req other in
        let ih = handled-passed (handle out s st req).0 key rest in
        rw (other, allowed, ih, limiter) refl
  ]

  -- The requests of a server keep its limiter filled.
  run-IsFilled :
      (c r t end : ℕ) (st : Running out) (reqs : List Request)
      → RoundsDown out.float64
      → 0 < c
      → c < 2 ^ 62
      → r ≤ 2 ^ 30
      → end < 2 ^ 63
      → IsFilled c r t st.limiter
      → Within t end (asked reqs)
      → IsFilled c r end (run out s st reqs).limiter
  unfolding run asked
  run-IsFilled c r t end st [] float room small slow clock h w =
      IsFilled-later c r t end st.limiter h w
  run-IsFilled c r t end st (req ∷ rest) float room small slow clock h w =
      elim (Bool-cases (req.method == "OPTIONS")) [
        | inl options ↦
            subst (λ (st' : Running out). IsFilled c r end (run out s st' rest).limiter)
              (sym (ap (λ p. p.0) (handle-preflight st req options)))
              (run-IsFilled c r t end st rest float room small slow clock h (rw options at w))
        | inr other ↦
            let (le, later) = rw other at w in
            let ahead = Within-le req.now end (asked rest) later in
            let (limiter, allowed) = handle-allow st req other in
            let kept =
              allow-IsFilled out.float64 float c r room small st.limiter t req.now (key_of req) h le
                (omega arith) slow in
            run-IsFilled c r req.now end (handle out s st req).0 rest float room small slow clock
              (subst (IsFilled c r req.now) (sym limiter) kept) later
      ]

new_limiter-IsFilled :
    (cfg : App) (r : ℕ) → cfg.rate_limit_per_min ≡ pos r → 0 < r → IsFilled r r 0 (new_limiter cfg)
unfolding new_limiter
new_limiter-IsFilled cfg r setting some_rate = record {
  capacity = rw setting (ground arith);
  rate = setting;
  each = λ key b found. cc;
}

-- Over any stretch of time, whatever requests came before it, a server that was started with `r`
-- requests a minute as its setting lets at most `r` requests of one address and two more past its
-- middlewares, and `r` for each minute of the stretch; preflights aside, which are not handled. The times
-- of the requests do not fall, and the clock is an int64, 0 < r ≤ 2 ^ 30, and the length of the stretch
-- in nanoseconds times the rate is at most 2 ^ 49.
pub handled_bound :
    (out : Outside) (cfg : App) (r : ℕ) (st : Running out) (key : String) (start end : ℕ)
    (before reqs : List Request)
    → RoundsDown out.float64
    → cfg.rate_limit_per_min ≡ pos r
    → st.limiter ≡ new_limiter cfg
    → 0 < r
    → r ≤ 2 ^ 30
    → end < 2 ^ 63
    → Within 0 start (asked before)
    → Within start end (asked reqs)
    → (end - start) * r ≤ 2 ^ 49
    → handled out (Server.start cfg) (run out (Server.start cfg) st before) key reqs * minute
      ≤ (r + 2) * minute + (end - start) * r
handled_bound out cfg r st key start end before reqs float setting limiter some_rate slow clock past
      within span =
    let s = Server.start cfg in
    let ahead = Within-le start end (asked reqs) within in
    let filled =
      run-IsFilled out s r r 0 start st before float some_rate (omega arith) slow (omega arith)
        (subst (IsFilled r r 0) (sym limiter) (new_limiter-IsFilled cfg r setting some_rate))
        past in
    let bound =
      rate_bound out.float64 float r r (omega arith) key (run out s st before).limiter start end
        (asked reqs) some_rate filled.capacity filled.rate (filled.each key) within clock slow
        span in
    rw (handled-passed out s (run out s st before) key reqs) bound
