-- ===== src/Auth/Header.antt =====
-- internal/auth: the steps of Parse and of the middleware, each by itself.
use Prim.Native.Char.{Char, code}
use Prim.Native.String
use text.Mathlib.TextLemmas.{cons-append, nil-append}
use go_attend.Common.{
  nat_eq, String, ◌≡◌, refl, sym, ap, ◌∙◌, subst, true, false, Bool-cases, inl, inr, ◌⊎◌, not, ◌&&◌,
  some, if◌then◌else◌, ◌==◌, eq_iff, Result, ok_injective, ok, err, arith,
}
use go_attend.Auth.{
  Claims, Method, hs256, other, Token, key_for, after_parse, admitted, after_claims,
}
use go_attend.Auth.Text.{lower, strip_fold}

pub after_parse-valid :
    (issuer : String) (token : Token)
    → token.valid ≡ true
    → token.claims.issuer ≡ issuer
    → after_parse issuer (ok token) ≡ ok token.claims
unfolding after_parse
after_parse-valid issuer token valid same =
    ground (arith, eq_iff token.claims.issuer issuer, eq_iff issuer "")

issuer_test :
    (issuer : String) (d : Claims) {c : Claims}
    → (if not (issuer == "") && not (d.issuer == issuer) then err "issuer mismatch" else ok d)
      ≡ ok c
    → (d ≡ c) × ((issuer ≡ "") ⊎ (c.issuer ≡ issuer))
issuer_test issuer d h = elim (Bool-cases (issuer == "")) [
  | inl e ↦ (ok_injective (rw e at h), inl ((eq_iff issuer "").0 e))
  | inr e ↦ elim (Bool-cases (d.issuer == issuer)) [
    | inl same ↦
        let c_is = ok_injective (rw (e, same) at h) in
        (
          c_is,
          inr (subst (λ (c : Claims). c.issuer ≡ issuer) c_is ((eq_iff d.issuer issuer).0 same)),
        )
    | inr different ↦ cc (rw (e, different) at h)
  ]
]

pub after_parse-ok :
    (issuer : String) (r : Result Token) {c : Claims}
    → after_parse issuer r ≡ ok c
    → (token : Token) × (r ≡ ok token) × (token.claims ≡ c) × ((issuer ≡ "") ⊎ (c.issuer ≡ issuer))
unfolding after_parse
after_parse-ok issuer (err e) h = cc
after_parse-ok issuer (ok token) h = elim (Bool-cases token.valid) [
  | inr v ↦ cc (rw v at h)
  | inl v ↦ let (same, by) = issuer_test issuer token.claims (rw v at h) in (token, refl, same, by)
]

pub after_claims-admitted :
    (r : Result Claims) {c : Claims} → after_claims r ≡ admitted c → r ≡ ok c
unfolding after_claims
after_claims-admitted (err e) h = cc
after_claims-admitted (ok d) h = cc

pub key_for-ok :
    (signing_key : String) (m : Method) (key : String)
    → key_for signing_key m ≡ ok key
    → (m ≡ hs256) × (key ≡ signing_key)
key_for-ok signing_key hs256 key h = (refl, sym (ok_injective h))
key_for-ok signing_key (other name) key h = cc

strip_step :
    (p c : Char) (prefix s t : String)
    → nat_eq (lower (code c)) (code p) ≡ true
    → strip_fold (String.◌∷◌ p prefix) (String.◌++◌ (String.◌∷◌ c s) t)
      ≡ strip_fold prefix (String.◌++◌ s t)
unfolding strip_fold
strip_step p c prefix s t h = rw (cons-append c s t) (rw h refl)

pub bearer-strip_fold : (t : String) → strip_fold "bearer " (String.◌++◌ "Bearer " t) ≡ some t
unfolding strip_fold
bearer-strip_fold t =
    strip_step "b" "B" "earer " "earer " t refl
    ∙ strip_step "e" "e" "arer " "arer " t refl
    ∙ strip_step "a" "a" "rer " "rer " t refl
    ∙ strip_step "r" "r" "er " "er " t refl
    ∙ strip_step "e" "e" "r " "r " t refl
    ∙ strip_step "r" "r" " " " " t refl
    ∙ strip_step " " " " "" "" t refl
    ∙ ap some (nil-append t)

pub bearer-nonempty : (t : String) → (String.◌++◌ "Bearer " t == "") ≡ false
unfolding strip_fold
bearer-nonempty t = elim (Bool-cases (String.◌++◌ "Bearer " t == "")) [
  | inl e ↦ cc (
      sym (bearer-strip_fold t)
      ∙ ap (strip_fold "bearer ") ((eq_iff (String.◌++◌ "Bearer " t) "").0 e))
  | inr e ↦ e
]
