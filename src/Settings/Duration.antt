-- ===== src/Settings/Duration.antt =====
-- internal/config/config.go: time.ParseDuration, which the lifetimes of the tokens are read with.
use Prim.Native.Char.{code}
use go_attend.Common.{
  ℕ, zero, suc, ◌+◌, ◌-◌, ◌*◌, ◌/◌, ◌%◌, String, Bool, true, false, not, ◌&&◌, ◌||◌, Option, none,
  some, if◌then◌else◌, ◌==◌, leb, ltb, nat_eq,
}
use go_attend.Common.Int.{ℤ, pos, sub_ℕ}
use go_attend.Settings.Number.{is_digit}

-- The float64 product of a fraction: uint64(float64(f) * (float64(unit) / scale)), where scale is ten
-- to the power of the number of digits that were taken.
abbrev pub Fractions : Type 0
Fractions = ℕ → ℕ → ℕ → ℕ

-- unitMap; the micro sign stands twice.
abbrev pub unit_of : String → Option ℕ
unit_of u =
    if u == "ns"
    then some 1
    else (if u == "us" || u == "µs" || u == "μs"
        then some 1000
        else (if u == "ms"
            then some 1000000
            else (if u == "s"
                then some 1000000000
                else (if u == "m"
                    then some 60000000000
                    else (if u == "h" then some 3600000000000 else none)))))

-- The digits at the front of a text: their number, whether there are any, and the rest.
pub record Whole : Type 0 where
  pub value : ℕ
  pub some_digit : Bool
  pub rest : String

abbrev pub whole : ℕ → Bool → String → Whole
whole value some_digit rest = record { value = value; some_digit = some_digit; rest = rest }

-- leadingInt after the number `x`, or none on an overflow of 2^63.
unfoldable pub leading_int : ℕ → Bool → String → Option Whole
leading_int x some_digit String.[] = some (whole x some_digit "")
leading_int x some_digit (String.◌∷◌ c s) =
    let next = x * 10 + (code c - b'0') in
    let rest = leading_int next true s in
    if is_digit c
    then (if leb x 922337203685477580 && leb next 9223372036854775808 then rest else none)
    else some (whole x some_digit (String.◌∷◌ c s))

-- The digits behind a point, of which `taken` count.
pub record Part : Type 0 where
  pub digits : Whole
  pub taken : ℕ

abbrev pub part : ℕ → ℕ → Bool → String → Part
part value taken some_digit rest = record { digits = whole value some_digit rest; taken = taken }

-- leadingFraction: digits that would overflow are passed over, and all after them.
unfoldable pub leading_fraction : ℕ → ℕ → Bool → Bool → String → Part
leading_fraction x taken full some_digit String.[] = part x taken some_digit ""
leading_fraction x taken full some_digit (String.◌∷◌ c s) =
    let next = x * 10 + (code c - b'0') in
    let fits = not full && leb x 922337203685477580 && leb next 9223372036854775808 in
    let rest =
      leading_fraction (if fits then next else x) (if fits then suc taken else taken) (not fits)
        true s in
    if is_digit c then rest else part x taken some_digit (String.◌∷◌ c s)

-- The text up to a point or a digit, and the rest.
unfoldable pub split_unit : String → String × String
split_unit String.[] = ("", "")
split_unit (String.◌∷◌ c s) =
    let (u, rest) = split_unit s in
    if nat_eq (code c) b'.' || is_digit c then ("", String.◌∷◌ c s) else (String.◌∷◌ c u, rest)

-- (\.[0-9]*)?
unfoldable pub fraction_part : String → Part
unfolding leading_fraction
fraction_part String.[] = part 0 0 false ""
fraction_part (String.◌∷◌ c s) =
    let digits = leading_fraction 0 0 false false s in
    if nat_eq (code c) b'.' then digits else part 0 0 false (String.◌∷◌ c s)

-- The nanoseconds of one number with its unit, or none above 2^63.
unfoldable pub scaled : Fractions → ℕ → ℕ → ℕ → Option ℕ → Option ℕ
scaled fraction v f taken none = none
scaled fraction v f taken (some unit) =
    if ltb (9223372036854775808 / unit) v
    then none
    else (let ns = v * unit + (if ltb 0 f then fraction f taken unit else 0) in
        if leb ns 9223372036854775808 then some ns else none)

-- A number, its fraction and its unit, as they stand at the front of a text, and the rest.
pub record Term : Type 0 where
  pub v : ℕ
  pub f : ℕ
  pub taken : ℕ
  pub unit : Option ℕ
  pub left : String

abbrev pub term : Whole → Part → String × String → Term
term w p (u, left) = record {
  v = w.value;
  f = p.digits.value;
  taken = p.taken;
  unit = if (w.some_digit || p.digits.some_digit) && not (u == "") then unit_of u else none;
  left = left;
}

unfoldable pub term_of : Option Whole → Option Term
unfolding fraction_part split_unit
term_of none = none
term_of (some w) = let p = fraction_part w.rest in some (term w p (split_unit p.digits.rest))

abbrev pub with_rest : String → Option ℕ → Option (ℕ × String)
with_rest left none = none
with_rest left (some ns) = some (ns, left)

abbrev pub priced : Fractions → Option Term → Option (ℕ × String)
priced fraction none = none
priced fraction (some t) = with_rest t.left (scaled fraction t.v t.f t.taken t.unit)

-- One number with its unit at the front of a text, and the rest.
unfoldable pub one_term : Fractions → String → Option (ℕ × String)
unfolding leading_int term_of scaled
one_term fraction s = priced fraction (term_of (leading_int 0 false s))

-- What one round does with its term: the next sum, of 64 bits, and the rest of the text.
unfoldable pub summed : ℕ → Option (ℕ × String) → Option (ℕ × String)
summed d none = none
summed d (some (ns, left)) =
    let sum = (d + ns) % 18446744073709551616 in
    if leb sum 9223372036854775808 then some (sum, left) else none

abbrev pub next_round : (ℕ → String → Option ℕ) → Option (ℕ × String) → Option ℕ
next_round rest none = none
next_round rest (some (sum, left)) = rest sum left

-- The loop over the terms, in at most that many rounds.
unfoldable pub terms : Fractions → ℕ → ℕ → String → Option ℕ
unfolding one_term summed
terms fraction zero d s = none
terms fraction (suc rounds) d s =
    let rest = next_round (terms fraction rounds) (summed d (one_term fraction s)) in
    if s == "" then some d else rest

abbrev pub text_length : String → ℕ
text_length String.[] = 0
text_length (String.◌∷◌ c s) = suc (text_length s)

-- What follows the sign: "0" has no unit, and the rest is a sum of terms.
unfoldable pub unsigned : Fractions → String → Option ℕ
unfolding terms
unsigned fraction s =
    if s == "0"
    then some 0
    else (if s == "" then none else terms fraction (suc (text_length s)) 0 s)

abbrev pub negated : Option ℕ → Option ℤ
negated none = none
negated (some d) = some (sub_ℕ 0 d)

abbrev pub positive : Option ℕ → Option ℤ
positive none = none
positive (some d) = if leb d 9223372036854775807 then some (pos d) else none

unfoldable pub parse_duration : Fractions → String → Option ℤ
unfolding unsigned
parse_duration fraction String.[] = none
parse_duration fraction (String.◌∷◌ c s) =
    if nat_eq (code c) b'-'
    then negated (unsigned fraction s)
    else (if nat_eq (code c) b'+'
        then positive (unsigned fraction s)
        else positive (unsigned fraction (String.◌∷◌ c s)))
