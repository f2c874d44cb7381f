-- ===== src/Settings/Digits.antt =====
-- internal/config/config.go: texts of decimal digits.
use Prim.Native.Char.{code}
use Prim.Native.String
use text.Mathlib.TextLemmas.{nil-append, cons-append}
use go_attend.Common.{
  ℕ, zero, suc, ◌+◌, ◌-◌, ◌*◌, ◌/◌, ◌%◌, ◌≤◌, ◌<◌, String, ◌≡◌, refl, true, false, Bool-cases, inl,
  inr, ltb, arith,
}
use go_attend.Attendance.Query.{digit, itoa_rounds, itoa}
use go_attend.Attendance.Text.{decimal}
use go_attend.Settings.Number.{is_digit, leading_digits}
use go_attend.Settings.Duration.{text_length}

abbrev pub IsDigits : String → Type 0
IsDigits String.[] = Unit
IsDigits (String.◌∷◌ c s) = (is_digit c ≡ true) × IsDigits s

-- No digit stands at the front of the text.
abbrev pub NoDigit : String → Type 0
NoDigit String.[] = Unit
NoDigit (String.◌∷◌ c s) = is_digit c ≡ false

digit-IsDigits : (d : ℕ) → IsDigits (digit d) × (text_length (digit d) ≡ 1)
digit-IsDigits zero = ((refl, tt), refl)
digit-IsDigits (suc zero) = ((refl, tt), refl)
digit-IsDigits (suc (suc zero)) = ((refl, tt), refl)
digit-IsDigits (suc (suc (suc zero))) = ((refl, tt), refl)
digit-IsDigits (suc (suc (suc (suc zero)))) = ((refl, tt), refl)
digit-IsDigits (suc (suc (suc (suc (suc zero))))) = ((refl, tt), refl)
digit-IsDigits (suc (suc (suc (suc (suc (suc zero)))))) = ((refl, tt), refl)
digit-IsDigits (suc (suc (suc (suc (suc (suc (suc zero))))))) = ((refl, tt), refl)
digit-IsDigits (suc (suc (suc (suc (suc (suc (suc (suc zero)))))))) = ((refl, tt), refl)
digit-IsDigits (suc (suc (suc (suc (suc (suc (suc (suc (suc d))))))))) = ((refl, tt), refl)

append-IsDigits : (s t : String) → IsDigits s → IsDigits t → IsDigits (String.◌++◌ s t)
append-IsDigits String.[] t hs ht = rw (nil-append t) ht
append-IsDigits (String.◌∷◌ c s) t hs ht =
    rw (cons-append c s t) (hs.0, append-IsDigits s t hs.1 ht)

pub length-append : (s t : String) → text_length (String.◌++◌ s t) ≡ text_length s + text_length t
length-append String.[] t = rw (nil-append t) (omega arith)
length-append (String.◌∷◌ c s) t = rw (cons-append c s t) (omega (arith, length-append s t))

itoa_rounds-IsDigits :
    (rounds i : ℕ)
    → IsDigits (itoa_rounds rounds i) × (0 < rounds → 0 < text_length (itoa_rounds rounds i))
unfolding itoa_rounds
itoa_rounds-IsDigits zero i = (tt, λ h. absurd (omega arith))
itoa_rounds-IsDigits (suc rounds) i = elim (Bool-cases (ltb i 10)) [
  | inl small ↦ rw small ((digit-IsDigits i).0, λ _. omega (arith, (digit-IsDigits i).1))
  | inr large ↦ rw large (
    append-IsDigits (itoa_rounds rounds (i / 10)) (digit (i % 10))
        (itoa_rounds-IsDigits rounds (i / 10)).0 (digit-IsDigits (i % 10)).0,
    λ _. omega (
      arith,
      length-append (itoa_rounds rounds (i / 10)) (digit (i % 10)),
      (digit-IsDigits (i % 10)).1,
    ),
  )
]

pub itoa-IsDigits : (n : ℕ) → IsDigits (itoa n) × (0 < text_length (itoa n))
unfolding itoa
itoa-IsDigits n =
    let (all, some_digit) = itoa_rounds-IsDigits (n + 1) n in (all, some_digit (omega arith))

pub le-decimal : (acc : ℕ) (s : String) → acc ≤ decimal acc s
le-decimal acc String.[] = omega arith
le-decimal acc (String.◌∷◌ c s) = omega (arith, le-decimal (acc * 10 + (code c - 48)) s)

pub leading_digits-append :
    (acc : ℕ) (s rest : String)
    → IsDigits s
    → NoDigit rest
    → leading_digits acc (String.◌++◌ s rest) ≡ decimal acc s
unfolding leading_digits
leading_digits-append acc String.[] String.[] hs hr = refl
leading_digits-append acc String.[] (String.◌∷◌ c rest) hs hr =
    rw (nil-append (String.◌∷◌ c rest)) (rw hr refl)
leading_digits-append acc (String.◌∷◌ c s) rest hs hr =
    rw (cons-append c s rest)
      (rw hs.0 (leading_digits-append (acc * 10 + (code c - 48)) s rest hs.1 hr))
