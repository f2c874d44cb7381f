-- ===== src/Api/Number.antt =====
-- cmd/api/main.go: strconv.Atoi, which the numbers of the query string are read with.
use Prim.Native.Char.{code}
use go_attend.Common.{
  ℕ, ◌≡◌, refl, ◌≤◌, subst, inl, inr, Bool-cases, leb→le, arith, ◌+◌, ◌-◌, ◌*◌, String, ◌&&◌,
  Option, none, some, if◌then◌else◌, leb, nat_eq,
}
use go_attend.Common.Int.{ℤ, pos, pos_part, neg_part, sub_ℕ}

-- A text of decimal digits only, after the digits of `acc`.
unfoldable pub digits : ℕ → String → Option ℕ
digits acc String.[] = some acc
digits acc (String.◌∷◌ c s) =
    let rest = digits (acc * 10 + (code c - b'0')) s in
    if leb b'0' (code c) && leb (code c) b'9' then rest else none

abbrev pub at_most : ℕ → Option ℕ → Option ℕ
at_most most none = none
at_most most (some n) = if leb n most then some n else none

-- At least one digit, and a number of at most that size.
unfoldable pub bounded : ℕ → String → Option ℕ
unfolding digits
bounded most String.[] = none
bounded most (String.◌∷◌ c s) = at_most most (digits 0 (String.◌∷◌ c s))

abbrev pub negated : Option ℕ → Option ℤ
negated none = none
negated (some n) = some (sub_ℕ 0 n)

abbrev pub positive : Option ℕ → Option ℤ
positive none = none
positive (some n) = some (pos n)

-- A sign, and digits of a number of 64 bits; an error is `none`.
unfoldable pub atoi : String → Option ℤ
unfolding bounded
atoi String.[] = none
atoi (String.◌∷◌ c s) =
    if nat_eq (code c) b'-'
    then negated (bounded 9223372036854775808 s)
    else (if nat_eq (code c) b'+'
        then positive (bounded 9223372036854775807 s)
        else positive (bounded 9223372036854775807 (String.◌∷◌ c s)))

-- The range of `int`.
abbrev pub IsInt64 : ℤ → Type 0
IsInt64 n = (pos_part n ≤ 9223372036854775807) × (neg_part n ≤ 9223372036854775808)

some_injective : {A : Type 0} {a b : A} → some a ≡ some b → a ≡ b
some_injective e = cc

zero_minus : (m : ℕ) → m ≤ 9223372036854775808 → IsInt64 (sub_ℕ 0 m)
zero_minus m h = ground arith

at_most-le : (most : ℕ) (o : Option ℕ) {n : ℕ} → at_most most o ≡ some n → n ≤ most
at_most-le most none h = cc
at_most-le most (some m) h = elim (Bool-cases (leb m most)) [
  | inl le ↦ subst (λ x. x ≤ most) (some_injective (rw le at h)) (leb→le m most le)
  | inr gt ↦ cc (rw gt at h)
]

bounded-le : (most : ℕ) (s : String) {n : ℕ} → bounded most s ≡ some n → n ≤ most
unfolding bounded
bounded-le most String.[] h = cc
bounded-le most (String.◌∷◌ c s) h = at_most-le most (digits 0 (String.◌∷◌ c s)) h

negated-bounds :
    (o : Option ℕ) {n : ℤ}
    → ((m : ℕ) → o ≡ some m → m ≤ 9223372036854775808)
    → negated o ≡ some n
    → IsInt64 n
negated-bounds none le h = cc
negated-bounds (some m) le h = subst IsInt64 (some_injective h) (zero_minus m (le m refl))

positive-bounds :
    (o : Option ℕ) {n : ℤ}
    → ((m : ℕ) → o ≡ some m → m ≤ 9223372036854775807)
    → positive o ≡ some n
    → IsInt64 n
positive-bounds none le h = cc
positive-bounds (some m) le h = subst IsInt64 (some_injective h) (le m refl, omega arith)

-- What Atoi reads is a number of 64 bits, whatever the text.
pub atoi-IsInt64 : (v : String) (n : ℤ) → atoi v ≡ some n → IsInt64 n
unfolding atoi
atoi-IsInt64 String.[] n h = cc
atoi-IsInt64 (String.◌∷◌ c s) n h = elim (Bool-cases (nat_eq (code c) b'-')) [
  | inl minus ↦ negated-bounds _ (λ m e. bounded-le _ s e) (rw minus at h)
  | inr e ↦ elim (Bool-cases (nat_eq (code c) b'+')) [
    | inl plus ↦ positive-bounds _ (λ m e'. bounded-le _ s e') (rw (e, plus) at h)
    | inr e' ↦ positive-bounds _ (λ m e''. bounded-le _ (String.◌∷◌ c s) e'') (rw (e, e') at h)
  ]
]
