-- ===== src/Simple/Number.antt =====
-- newGoAttend/backend/internal/handler/handler.go: the value that strconv.Atoi returns beside an error
-- that is ignored.
use Prim.Native.Char.{code}
use go_attend.Common.{ℕ, ◌+◌, ◌-◌, ◌*◌, String, ◌&&◌, leb, nat_eq, if◌then◌else◌}
use go_attend.Common.Int.{ℤ, pos, sub_ℕ}

-- The three results of strconv.ParseUint.
pub data Parsed : Type 0 where
  syntax : Parsed
  range : Parsed
  value : ℕ → Parsed

-- The digits after the number `acc`. A number above 64 bits ends the loop where it is found.
unfoldable pub parse_digits : ℕ → String → Parsed
parse_digits acc String.[] = value acc
parse_digits acc (String.◌∷◌ c s) =
    let next = acc * 10 + (code c - b'0') in
    let rest = parse_digits next s in
    if leb b'0' (code c) && leb (code c) b'9'
    then (if leb next 18446744073709551615 then rest else range)
    else syntax

unfoldable pub parse_uint : String → Parsed
unfolding parse_digits
parse_uint String.[] = syntax
parse_uint (String.◌∷◌ c s) = parse_digits 0 (String.◌∷◌ c s)

abbrev pub at_most : ℕ → Parsed → ℕ
at_most most syntax = 0
at_most most range = most
at_most most (value n) = if leb n most then n else most

-- 0 for a text that is no number, and the nearest number of 64 bits for one that is too large.
unfoldable pub atoi_value : String → ℤ
unfolding parse_uint
atoi_value String.[] = pos 0
atoi_value (String.◌∷◌ c s) =
    if nat_eq (code c) b'-'
    then sub_ℕ 0 (at_most 9223372036854775808 (parse_uint s))
    else (if nat_eq (code c) b'+'
        then pos (at_most 9223372036854775807 (parse_uint s))
        else pos (at_most 9223372036854775807 (parse_uint (String.◌∷◌ c s))))
