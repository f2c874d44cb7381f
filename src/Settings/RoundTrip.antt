-- ===== src/Settings/RoundTrip.antt =====
-- internal/config/config.go: numbers and durations that are written in decimal are read back.
use Prim.Native.Char.{Char, code}
use Prim.Native.String
use text.Mathlib.TextLemmas.{nil-append, cons-append}
use go_attend.Common.{
  ℕ, suc, ◌+◌, ◌-◌, ◌*◌, ◌%◌, ◌≤◌, ◌<◌, String, ◌≡◌, ◌≢◌, refl, sym, ap, ◌∙◌, Bool, true, false,
  Bool-cases, inl, inr, ◌&&◌, some, subst, if◌then◌else◌, ◌==◌, eq_iff, leb, le→leb, nat_eq, arith,
}
use go_attend.Common.Int.{pos}
use go_attend.Attendance.Query.{itoa}
use go_attend.Attendance.Text.{decimal, decimal-itoa}
use go_attend.Settings.Number.{
  is_digit, skip_space, leading_digits, scan_digits, scan_signed, scan_int,
}
use go_attend.Settings.Number
use go_attend.Settings.Duration.{
  Fractions, whole, leading_int, fraction_part, split_unit, scaled, term_of, one_term, summed,
  terms, text_length, unsigned, next_round, positive, parse_duration,
}
use go_attend.Settings.Digits.{
  IsDigits, NoDigit, itoa-IsDigits, length-append, le-decimal, leading_digits-append,
}

first_fits :
    (x next : ℕ)
    → x * 10 ≤ next
    → next ≤ 9223372036854775808
    → (leb x 922337203685477580 && leb next 9223372036854775808) ≡ true
first_fits x next h k = ground arith

suc_not_zero : (n : ℕ) → nat_eq (suc n) 0 ≡ false
suc_not_zero n = ground arith

same_branches : (a b : Bool) → (if a then true else true) ≡ (if false then b else true)
same_branches true b = refl
same_branches false b = refl

leading_int-append :
    (x : ℕ) (b : Bool) (s rest : String)
    → IsDigits s
    → NoDigit rest
    → decimal x s ≤ 9223372036854775808
    → leading_int x b (String.◌++◌ s rest)
      ≡ some (whole (decimal x s) (if nat_eq (text_length s) 0 then b else true) rest)
unfolding leading_int
leading_int-append x b String.[] String.[] hs hr small = refl
leading_int-append x b String.[] (String.◌∷◌ c rest) hs hr small =
    rw (nil-append (String.◌∷◌ c rest)) (rw hr refl)
leading_int-append x b (String.◌∷◌ c s) rest hs hr small =
    let next = x * 10 + (code c - 48) in
    let below = le-decimal next s in
    let ih = leading_int-append next true s rest hs.1 hr small in
    rw (cons-append c s rest) (
      rw hs.0 (
        rw (first_fits x next (omega arith) (omega (arith, below, small))) (
          rw (suc_not_zero (text_length s)) (
            ih
            ∙ ap (λ some_digit. some (whole (decimal next s) some_digit rest))
                (same_branches (nat_eq (text_length s) 0) b)))))

-- A text that begins with a digit begins with no blank and no sign.
skip_space-digit :
    (c : Char) (s : String)
    → is_digit c ≡ true
    → skip_space (String.◌∷◌ c s) ≡ some (String.◌∷◌ c s)
unfolding skip_space
skip_space-digit c s h = ground arith

scan_digits-digit :
    (most : ℕ) (c : Char) (s : String)
    → is_digit c ≡ true
    → leading_digits 0 (String.◌∷◌ c s) ≤ most
    → scan_digits most (String.◌∷◌ c s) ≡ some (leading_digits 0 (String.◌∷◌ c s))
unfolding scan_digits
scan_digits-digit most c s h small = rw (h, le→leb _ most (rw h at small)) refl

scan_signed-digit :
    (c : Char) (s : String)
    → is_digit c ≡ true
    → leading_digits 0 (String.◌∷◌ c s) ≤ 9223372036854775807
    → scan_signed (String.◌∷◌ c s) ≡ some (pos (leading_digits 0 (String.◌∷◌ c s)))
unfolding scan_signed
scan_signed-digit c s h small =
    let minus : nat_eq (code c) 45 ≡ false = ground arith in
    let plus : nat_eq (code c) 43 ≡ false = ground arith in
    rw (minus, plus) (ap Number.positive (scan_digits-digit 9223372036854775807 c s h small))

scan_int-digits :
    (t rest : String)
    → IsDigits t
    → 0 < text_length t
    → NoDigit rest
    → decimal 0 t ≤ 9223372036854775807
    → scan_int (String.◌++◌ t rest) ≡ some (pos (decimal 0 t))
unfolding scan_int
scan_int-digits String.[] rest digits some_digit nodigit small = absurd (omega arith)
scan_int-digits (String.◌∷◌ c s) rest digits some_digit nodigit small =
    let read = leading_digits-append 0 (String.◌∷◌ c s) rest digits nodigit in
    let shape = cons-append c s rest in
    let all = rw shape at read in
    rw shape (
      rw (skip_space-digit c (String.◌++◌ s rest) digits.0) (
        scan_signed-digit c (String.◌++◌ s rest) digits.0
          (subst (λ m. m ≤ 9223372036854775807) (sym all) small)
        ∙ ap (λ m. some (pos m)) all))

-- A number of the type int that is written in decimal is read back by Sscanf, whatever follows it, but
-- another digit.
pub scan_int-itoa :
    (n : ℕ) (rest : String)
    → n ≤ 9223372036854775807
    → NoDigit rest
    → scan_int (String.◌++◌ (itoa n) rest) ≡ some (pos n)
unfolding scan_int
scan_int-itoa n rest small nodigit =
    let (digits, some_digit) = itoa-IsDigits n in
    scan_int-digits (itoa n) rest digits some_digit nodigit (omega (arith, decimal-itoa n))
    ∙ ap (λ m. some (pos m)) (decimal-itoa n)

-- What is left after one term in seconds.
scaled_seconds :
    (f : Fractions) (n : ℕ)
    → n * 1000000000 ≤ 9223372036854775807
    → scaled f n 0 0 (some 1000000000) ≡ some (n * 1000000000)
unfolding scaled
scaled_seconds f n small = ground arith

one_term_seconds :
    (f : Fractions) (t : String)
    → IsDigits t
    → 0 < text_length t
    → decimal 0 t * 1000000000 ≤ 9223372036854775807
    → one_term f (String.◌++◌ t "s") ≡ some (decimal 0 t * 1000000000, "")
unfolding one_term term_of fraction_part split_unit
one_term_seconds f t digits some_digit small =
    let nonempty : nat_eq (text_length t) 0 ≡ false = ground arith in
    let read = leading_int-append 0 false t "s" digits refl (omega arith) in
    rw (read, nonempty) (rw (scaled_seconds f (decimal 0 t) small) refl)

other_text : (s t : String) → text_length s ≢ text_length t → (s == t) ≡ false
other_text s t h = elim (Bool-cases (s == t)) [
  | inl e ↦ absurd (h (ap text_length ((eq_iff s t).0 e)))
  | inr e ↦ e
]

summed_first : (n : ℕ) → n ≤ 9223372036854775807 → summed 0 (some (n, "")) ≡ some (n, "")
unfolding summed
summed_first n small =
    let sum : (0 + n) % 18446744073709551616 ≡ n = omega arith in
    rw (sum, le→leb n 9223372036854775808 (omega arith)) refl

round_seconds :
    (f : Fractions) (rounds n : ℕ) (s : String)
    → n ≤ 9223372036854775807
    → one_term f s ≡ some (n, "")
    → next_round (terms f (suc rounds)) (summed 0 (one_term f s)) ≡ some n
unfolding terms
round_seconds f rounds n s small read = rw (read, summed_first n small) refl

positive_fits : (m : ℕ) → m ≤ 9223372036854775807 → positive (some m) ≡ some (pos m)
positive_fits m small = rw (le→leb m 9223372036854775807 small) refl

parse_seconds :
    (f : Fractions) (t : String)
    → IsDigits t
    → 0 < text_length t
    → decimal 0 t * 1000000000 ≤ 9223372036854775807
    → parse_duration f (String.◌++◌ t "s") ≡ some (pos (decimal 0 t * 1000000000))
unfolding parse_duration unsigned
parse_seconds f String.[] digits some_digit small = absurd (omega arith)
parse_seconds f (String.◌∷◌ c s) digits some_digit small =
    let minus : nat_eq (code c) 45 ≡ false = let d = digits.0 in ground arith in
    let plus : nat_eq (code c) 43 ≡ false = let d = digits.0 in ground arith in
    let long = length-append s "s" in
    let t = String.◌∷◌ c (String.◌++◌ s "s") in
    let n = decimal 0 (String.◌∷◌ c s) * 1000000000 in
    let zero_text : (t == "0") ≡ false = other_text t "0" (λ e. absurd (omega arith)) in
    let empty_text : (t == "") ≡ false = other_text t "" (λ e. absurd (omega arith)) in
    let shape = cons-append c s "s" in
    rw shape (
      rw (minus, plus, zero_text, empty_text)
        (ap positive (
            round_seconds f (text_length (String.◌++◌ s "s")) n t small (
              subst (λ text. one_term f text ≡ some (n, "")) shape
                (one_term_seconds f (String.◌∷◌ c s) digits some_digit small)))
          ∙ positive_fits n small))

-- A duration of a number of seconds, written in decimal with the unit s, is read as that number of
-- nanoseconds, up to the greatest int64.
pub parse_duration-itoa :
    (f : Fractions) (n : ℕ)
    → n * 1000000000 ≤ 9223372036854775807
    → parse_duration f (String.◌++◌ (itoa n) "s") ≡ some (pos (n * 1000000000))
parse_duration-itoa f n small =
    let (digits, some_digit) = itoa-IsDigits n in
    parse_seconds f (itoa n) digits some_digit (omega (arith, decimal-itoa n))
    ∙ ap (λ m. some (pos (m * 1000000000))) (decimal-itoa n)
