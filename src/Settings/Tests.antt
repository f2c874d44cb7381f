-- ===== src/Settings/Tests.antt =====
-- internal/config/config.go: the settings of concrete environments.
use go_attend.Common.{◌*◌, ◌/◌, String, ◌≡◌, refl, false, some, none, if◌then◌else◌, ◌==◌, arith}
use go_attend.Common.Int.{pos, negsuc}
use go_attend.Attendance.Query.{itoa}
use go_attend.Settings.{load}
use go_attend.Settings.Number.{scan_int}
use go_attend.Settings.Duration.{Fractions, parse_duration}
use go_attend.Settings.Written.{seconds_or, number_or, load-written}

settings : Unit {0}
unfolding load scan_int parse_duration itoa
settings = tt

-- Fractions in exact arithmetic, of one digit.
abbrev tenths : Fractions
tenths = λ f taken unit. f * (unit / 10)

abbrev unset : String → String
unset key = ""

abbrev numbers : String → String
numbers key =
    if key == "RATE_LIMIT_PER_MIN" then "12abc" else (if key == "FACE_SKIP" then "0" else "")

tests :
    ((load tenths unset).rate_limit_per_min ≡ pos 120)
    × ((load tenths unset).http_port ≡ "8081")
    × ((load tenths numbers).rate_limit_per_min ≡ pos 12)
    × ((load tenths numbers).face_skip ≡ false)
    × (scan_int "-7" ≡ some (negsuc 6))
    × (scan_int "9223372036854775808" ≡ none)
    × (parse_duration tenths "15m" ≡ some (pos 900000000000))
    × (parse_duration tenths "1h1.5s" ≡ some (pos 3601500000000))
    × (parse_duration tenths "15" ≡ none)
    × (parse_duration tenths "-2ms" ≡ some (negsuc 1999999))
unfolding settings
tests = (refl, refl, refl, refl, refl, refl, refl, refl, refl, refl)

abbrev in_seconds : String → String
in_seconds key =
    if key == "ACCESS_TTL" then "600s" else (if key == "RATE_LIMIT_PER_MIN" then "30" else "")

load-written_example :
    ((load tenths in_seconds).access_ttl ≡ seconds_or 900 (some 600))
    × ((load tenths in_seconds).refresh_ttl ≡ seconds_or 86400 none)
    × ((load tenths in_seconds).rate_limit_per_min ≡ number_or 120 (some 30))
unfolding settings
load-written_example =
    load-written tenths in_seconds (some 600) none (some 30) refl refl refl (omega arith) tt
      (omega arith)
