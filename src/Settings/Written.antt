-- ===== src/Settings/Written.antt =====
-- internal/config/config.go: the numbers of the settings, as they are written in the environment.
use Prim.Native.String
use go_attend.Common.{
  ℕ, ◌*◌, ◌≤◌, String, ◌≡◌, refl, ap, false, Bool-cases, inl, inr, Option, some, none, ◌==◌, eq_iff,
  arith,
}
use go_attend.Common.Int.{ℤ, pos}
use go_attend.Attendance.Query.{itoa}
use go_attend.Settings.{load, duration_env, int_env, or_else}
use go_attend.Settings.Duration.{Fractions, text_length}
use go_attend.Settings.Digits.{itoa-IsDigits, length-append}
use go_attend.Settings.RoundTrip.{parse_duration-itoa, scan_int-itoa}

-- A variable that is not set, or holds a number in decimal with that unit.
abbrev pub written : String → Option ℕ → String
written unit none = ""
written unit (some n) = String.◌++◌ (itoa n) unit

-- The seconds that are set, or the seconds of the default, in nanoseconds.
abbrev pub seconds_or : ℕ → Option ℕ → ℤ
seconds_or fallback none = pos (fallback * 1000000000)
seconds_or fallback (some n) = pos (n * 1000000000)

abbrev pub number_or : ℕ → Option ℕ → ℤ
number_or fallback none = pos fallback
number_or fallback (some n) = pos n

-- A number that is set stays within int64 after it is multiplied by `k`.
abbrev pub Fits : ℕ → Option ℕ → Type 0
Fits k none = Unit
Fits k (some n) = n * k ≤ 9223372036854775807

not_empty : (n : ℕ) (unit : String) → (String.◌++◌ (itoa n) unit == "") ≡ false
not_empty n unit = elim (Bool-cases (String.◌++◌ (itoa n) unit == "")) [
  | inl e ↦
      let long = ap text_length ((eq_iff (String.◌++◌ (itoa n) unit) "").0 e) in
      absurd (omega (arith, length-append (itoa n) unit, (itoa-IsDigits n).1))
  | inr e ↦ e
]

duration_env-written :
    (f : Fractions) (getenv : String → String) (key : String) (fallback : ℕ) (o : Option ℕ)
    → getenv key ≡ written "s" o
    → Fits 1000000000 o
    → duration_env f getenv key (pos (fallback * 1000000000)) ≡ seconds_or fallback o
unfolding duration_env
duration_env-written f getenv key fallback none e fits = rw e refl
duration_env-written f getenv key fallback (some n) e fits =
    rw (e, not_empty n "s")
      (ap (or_else (pos (fallback * 1000000000))) (parse_duration-itoa f n fits))

int_env-written :
    (getenv : String → String) (key : String) (fallback : ℕ) (o : Option ℕ)
    → getenv key ≡ written "" o
    → Fits 1 o
    → int_env getenv key (pos fallback) ≡ number_or fallback o
unfolding int_env
int_env-written getenv key fallback none e fits = rw e refl
int_env-written getenv key fallback (some n) e fits =
    rw (e, not_empty n "") (ap (or_else (pos fallback)) (scan_int-itoa n "" (omega arith) tt))

-- Load takes the lifetimes of the tokens from ACCESS_TTL and REFRESH_TTL, which are written as seconds
-- in decimal with the unit s, and the requests a minute from RATE_LIMIT_PER_MIN, which is written in
-- decimal, each within int64; where a variable is not set, it takes 15 minutes, a day and 120.
pub load-written :
    (f : Fractions) (getenv : String → String) (access refresh requests : Option ℕ)
    → getenv "ACCESS_TTL" ≡ written "s" access
    → getenv "REFRESH_TTL" ≡ written "s" refresh
    → getenv "RATE_LIMIT_PER_MIN" ≡ written "" requests
    → Fits 1000000000 access
    → Fits 1000000000 refresh
    → Fits 1 requests
    → ((load f getenv).access_ttl ≡ seconds_or 900 access)
      × ((load f getenv).refresh_ttl ≡ seconds_or 86400 refresh)
      × ((load f getenv).rate_limit_per_min ≡ number_or 120 requests)
unfolding load
load-written f getenv access refresh requests ha hr hn fa fr fn = (
  duration_env-written f getenv "ACCESS_TTL" 900 access ha fa,
  duration_env-written f getenv "REFRESH_TTL" 86400 refresh hr fr,
  int_env-written getenv "RATE_LIMIT_PER_MIN" 120 requests hn fn,
)
