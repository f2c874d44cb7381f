-- ===== src/Common/Results.antt =====
-- A Go result `(T, error)` as a value. The text of an error is kept; `nil` is `ok`.
use Prim.Native.String.{String}
use mathlib.Core.Path.{◌≡◌, refl}
use mathlib.Core.Bool.{Bool, true, false}
use mathlib.Core.Logic.{◌⊎◌, inl, inr}

pub data Result {ℓ} (T : Type ℓ) : Type ℓ where
  err : String → Result T
  ok : T → Result T

-- A function that returns an error alone.
abbrev pub Done : Type 0
Done = Result (Unit {0})

-- `if err != nil { return err }`, and then the rest.
infixl 5 ◌>>=◌
abbrev pub ◌>>=◌ {ℓ κ} : {T : Type ℓ} {U : Type κ} → Result T → (T → Result U) → Result U
err text >>= rest = err text
ok t >>= rest = rest t

abbrev pub is_ok {ℓ} : {T : Type ℓ} → Result T → Bool
is_ok (err text) = false
is_ok (ok t) = true

pub Result-cases {ℓ} :
    {T : Type ℓ} (r : Result T) → ((t : T) × (r ≡ ok t)) ⊎ ((text : String) × (r ≡ err text))
Result-cases (err text) = inr (text, refl)
Result-cases (ok t) = inl (t, refl)

pub ok_injective : {T : Type 0} {a b : T} → ok a ≡ ok b → a ≡ b
ok_injective e = cc

-- A chain that succeeds has succeeded at its first step.
pub bind-ok :
    {A B : Type 0} (r : Result A) (f : A → Result B) {b : B}
    → (r >>= f) ≡ ok b
    → (a : A) × (r ≡ ok a) × (f a ≡ ok b)
bind-ok (err e) f h = cc
bind-ok (ok a) f h = (a, refl, h)
