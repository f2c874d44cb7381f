-- ===== src/Settings/Rounds.antt =====
-- internal/config/config.go: the loop of time.ParseDuration ends.
use Prim.Native.Char.{code}
use go_attend.Common.{
  ℕ, zero, suc, ◌+◌, ◌-◌, ◌*◌, ◌%◌, ◌≤◌, ◌<◌, String, ◌≡◌, ◌≢◌, refl, ap, Bool, true, false,
  Bool-cases, inl, inr, not, ◌&&◌, ◌||◌, Option, none, some, Option-cases, subst, if_induction,
  if◌then◌else◌, ◌==◌, leb, nat_eq, arith,
}
use go_attend.Settings.Number.{is_digit}
use go_attend.Settings.Duration.{
  Fractions, unit_of, leading_int, leading_fraction, split_unit, fraction_part, scaled, Term,
  term_of, priced, one_term, summed, terms, text_length, Whole, Part, next_round,
}

-- The length of what is left behind a number.
abbrev after_whole : Option Whole → ℕ
after_whole none = 0
after_whole (some w) = text_length w.rest

le_suc : {m n : ℕ} → m ≤ n → m ≤ suc n
le_suc h = omega arith

some_injective : {A : Type 0} {a b : A} → some a ≡ some b → a ≡ b
some_injective e = cc

leading_int-length :
    (x : ℕ) (b : Bool) (s : String) → after_whole (leading_int x b s) ≤ text_length s
unfolding leading_int
leading_int-length x b String.[] = omega arith
leading_int-length x b (String.◌∷◌ c s) =
    let next = x * 10 + (code c - 48) in
    let ih = leading_int-length next true s in
    if_induction (λ o. after_whole o ≤ suc (text_length s)) (is_digit c) _ _
      (λ _.
        if_induction (λ o. after_whole o ≤ suc (text_length s))
          (leb x 922337203685477580 && leb next 9223372036854775808) _ _ (λ _. omega (arith, ih))
          (λ _. omega arith))
      (λ _. omega arith)

leading_fraction-length :
    (s : String) (x taken : ℕ) (full b : Bool)
    → text_length (leading_fraction x taken full b s).digits.rest ≤ text_length s
unfolding leading_fraction
leading_fraction-length String.[] x taken full b = omega arith
leading_fraction-length (String.◌∷◌ c s) x taken full b =
    if_induction (λ (p : Part). text_length p.digits.rest ≤ suc (text_length s)) (is_digit c) _ _
      (λ _. le_suc (leading_fraction-length s _ _ _ true)) (λ _. omega arith)

fraction_part-length : (s : String) → text_length (fraction_part s).digits.rest ≤ text_length s
unfolding fraction_part
fraction_part-length String.[] = omega arith
fraction_part-length (String.◌∷◌ c s) =
    if_induction (λ (p : Part). text_length p.digits.rest ≤ suc (text_length s))
      (nat_eq (code c) 46) _ _ (λ _. le_suc (leading_fraction-length s 0 0 false false))
      (λ _. omega arith)

split_unit-length :
    (s : String) → text_length (split_unit s).0 + text_length (split_unit s).1 ≡ text_length s
unfolding split_unit
split_unit-length String.[] = refl
split_unit-length (String.◌∷◌ c s) =
    if_induction (λ (p : String × String). text_length p.0 + text_length p.1 ≡ suc (text_length s))
      (nat_eq (code c) 46 || is_digit c) _ _ (λ _. omega arith)
      (λ _. omega (arith, split_unit-length s))

nonempty_text : (u : String) → (u == "") ≡ false → 0 < text_length u
nonempty_text String.[] h = cc
nonempty_text (String.◌∷◌ c u) h = omega arith

unit_named :
    (digit : Bool) (u : String)
    → (if digit && not (u == "") then unit_of u else none) ≢ none
    → (u == "") ≡ false
unit_named false u h = absurd (h refl)
unit_named true u h = elim (Bool-cases (u == "")) [ inl e ↦ absurd (h (rw e refl)) | inr e ↦ e ]

-- A term that counts has a unit, so it is not empty.
scaled-unit :
    (fraction : Fractions) (v f taken : ℕ) (unit : Option ℕ) {ns : ℕ}
    → scaled fraction v f taken unit ≡ some ns
    → unit ≢ none
unfolding scaled
scaled-unit fraction v f taken none h e = cc
scaled-unit fraction v f taken (some unit) h e = cc

priced-left :
    (fraction : Fractions) (o : Option Term) {ns : ℕ} {left : String}
    → priced fraction o ≡ some (ns, left)
    → (t : Term) × (o ≡ some t) × (t.unit ≢ none) × (t.left ≡ left)
priced-left fraction none h = cc
priced-left fraction (some t) h = elim (Option-cases (scaled fraction t.v t.f t.taken t.unit)) [
  | inl e ↦ cc (rw e at h)
  | inr (ns, e) ↦ (t, refl, scaled-unit fraction t.v t.f t.taken t.unit e, cc (rw e at h))
]

term_of-length :
    (o : Option Whole) {t : Term}
    → term_of o ≡ some t
    → t.unit ≢ none
    → text_length t.left < after_whole o
unfolding term_of
term_of-length none h u = cc
term_of-length (some w) {t} h u =
    let p = fraction_part w.rest in
    let left = split_unit p.digits.rest in
    subst (λ (t : Term). t.unit ≢ none → text_length t.left < text_length w.rest) (some_injective h)
      (λ unit.
        let named = unit_named (w.some_digit || p.digits.some_digit) left.0 unit in
        omega (
          arith,
          split_unit-length p.digits.rest,
          fraction_part-length w.rest,
          nonempty_text left.0 named,
        ))
      u

summed-term :
    (d : ℕ) (o : Option (ℕ × String)) {sum : ℕ} {left : String}
    → summed d o ≡ some (sum, left)
    → (ns : ℕ) × (o ≡ some (ns, left))
unfolding summed
summed-term d none h = cc
summed-term d (some (ns, left)) h =
    elim (Bool-cases (leb ((d + ns) % 18446744073709551616) 9223372036854775808)) [
      | inl e ↦ (ns, ap (λ l. some (ns, l)) (ap (λ p. p.1) (some_injective (rw e at h))))
      | inr e ↦ cc (rw e at h)
    ]

next_round-same :
    (f g : ℕ → String → Option ℕ) (o : Option (ℕ × String))
    → ((sum : ℕ) (left : String) → o ≡ some (sum, left) → f sum left ≡ g sum left)
    → next_round f o ≡ next_round g o
next_round-same f g none h = refl
next_round-same f g (some (sum, left)) h = h sum left refl

summed-length :
    (fraction : Fractions) (d : ℕ) (s : String) {sum : ℕ} {left : String}
    → summed d (one_term fraction s) ≡ some (sum, left)
    → text_length left < text_length s
unfolding one_term
summed-length fraction d s h =
    let (ns, found) = summed-term d (one_term fraction s) h in
    let (t, named, unit, same) = priced-left fraction (term_of (leading_int 0 false s)) found in
    let shorter = term_of-length (leading_int 0 false s) named unit in
    subst (λ l. text_length l < text_length s) same
      (omega (arith, shorter, leading_int-length 0 false s))

-- Rounds beyond the length of the text change nothing: the loop has ended by then.
terms-enough :
    (fraction : Fractions) (n m d : ℕ) (s : String)
    → text_length s < n
    → text_length s < m
    → terms fraction n d s ≡ terms fraction m d s
unfolding terms
terms-enough fraction zero m d s hn hm = absurd (omega arith)
terms-enough fraction (suc n) zero d s hn hm = absurd (omega arith)
terms-enough fraction (suc n) (suc m) d s hn hm =
    ap (λ o. if s == "" then some d else o)
      (next_round-same (terms fraction n) (terms fraction m) (summed d (one_term fraction s))
        (λ sum left e.
          let shorter = summed-length fraction d s e in
          terms-enough fraction n m sum left (omega arith) (omega arith)))
