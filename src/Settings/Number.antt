-- ===== src/Settings/Number.antt =====
-- internal/config/config.go: fmt.Sscanf with the format "%d".
use Prim.Native.Char.{Char, code}
use go_attend.Common.{
  ℕ, ◌+◌, ◌-◌, ◌*◌, String, Bool, ◌&&◌, Option, none, some, if◌then◌else◌, leb, nat_eq,
}
use go_attend.Common.Int.{ℤ, pos, sub_ℕ}
use go_attend.Auth.Text.{is_space}

-- The blanks before a number are passed over; a new line is an error.
unfoldable pub skip_space : String → Option String
skip_space String.[] = some ""
skip_space (String.◌∷◌ c s) =
    let rest = skip_space s in
    if nat_eq (code c) 10 then none else (if is_space (code c) then rest else some (String.◌∷◌ c s))

abbrev pub is_digit : Char → Bool
is_digit c = leb b'0' (code c) && leb (code c) b'9'

-- The digits at the front of a text, after the number `acc`; what follows them is not read.
unfoldable pub leading_digits : ℕ → String → ℕ
leading_digits acc String.[] = acc
leading_digits acc (String.◌∷◌ c s) =
    let rest = leading_digits (acc * 10 + (code c - b'0')) s in if is_digit c then rest else acc

-- At least one digit, and a number of at most that size.
unfoldable pub scan_digits : ℕ → String → Option ℕ
unfolding leading_digits
scan_digits most String.[] = none
scan_digits most (String.◌∷◌ c s) =
    let n = leading_digits 0 (String.◌∷◌ c s) in if is_digit c && leb n most then some n else none

abbrev pub negated : Option ℕ → Option ℤ
negated none = none
negated (some n) = some (sub_ℕ 0 n)

abbrev pub positive : Option ℕ → Option ℤ
positive none = none
positive (some n) = some (pos n)

-- The sign and the digits of a number of 64 bits.
unfoldable pub scan_signed : String → Option ℤ
unfolding scan_digits
scan_signed String.[] = none
scan_signed (String.◌∷◌ c s) =
    if nat_eq (code c) b'-'
    then negated (scan_digits 9223372036854775808 s)
    else (if nat_eq (code c) b'+'
        then positive (scan_digits 9223372036854775807 s)
        else positive (scan_digits 9223372036854775807 (String.◌∷◌ c s)))

abbrev pub signed_of : Option String → Option ℤ
signed_of none = none
signed_of (some s) = scan_signed s

-- The number that Sscanf stores, or none with an error.
unfoldable pub scan_int : String → Option ℤ
unfolding skip_space scan_signed
scan_int s = signed_of (skip_space s)
