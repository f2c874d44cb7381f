-- ===== src/Auth/Tests.antt =====
-- internal/auth: the tokens and the middleware on a concrete signer.
use go_attend.Common.{
  ℕ, ap, subst, sym, ◌∙◌, ok_injective, ◌⊎◌, Bool, nat_eq, eq_iff, ◌==◌, ◌&&◌, ◌<◌, String, ◌≡◌,
  refl, true, false, some, none, if◌then◌else◌, ltb, ltb→lt, lt→ltb, Option, Result, ok, err, arith,
}
use go_attend.Common.Int.{pos}
use go_attend.Auth.{Claims, hs256, Token, Jwt, Clock, TokenPair, issue, parse, device_auth}
use go_attend.Auth.Text.{strip_fold, trim_space}
use go_attend.Auth.Tokens.{JwtLaws, Carries, parse-issue, device_auth-admitted}

auth : Unit {0}
unfolding issue parse device_auth trim_space strip_fold
auth = tt

abbrev gate : Claims
gate = record {
  subject = "d";
  role = "device";
  issuer = "goattend";
  expires_at = some 100;
  issued_at = some 0;
}

texts :
    (trim_space " a b\t " ≡ "a b")
    × (strip_fold "bearer " "BEARER x" ≡ some "x")
    × (strip_fold "bearer " "Basic x" ≡ none)
unfolding auth
texts = (refl, refl, refl)

-- A signer that knows one key and signs the claims of one gate only.
abbrev is_gate : Claims → Bool
is_gate c =
    c.subject == "d"
    && c.role == "device"
    && c.issuer == "goattend"
    && (elim c.expires_at [ some t ↦ nat_eq t 100 | none ↦ false ])

abbrev read_gate : ℕ → Result String → Result Token
read_gate now (err e) = err e
read_gate now (ok key) =
    if key == "k" && ltb now 100 then ok (record { claims = gate; valid = true }) else err "bad"

abbrev pub signer : Jwt
signer = record {
  numeric_date = λ t. t;
  signed_string = λ c key. if key == "k" && is_gate c then ok "x.y.z" else err "unknown";
  parse_with_claims =
      λ now keys t. if t == "x.y.z" then read_gate now (keys hs256) else err "malformed";
}

both : (a b : Bool) → (a && b) ≡ true → (a ≡ true) × (b ≡ true)
both true b h = (refl, h)
both false b h = cc

test-ok :
    {A : Type 0} (b : Bool) (r : Result A) (text : String) {a : A}
    → (if b then r else err text) ≡ ok a
    → (b ≡ true) × (r ≡ ok a)
test-ok true r text h = (refl, h)
test-ok false r text h = cc

is_gate-expires :
    (o : Option ℕ) → (elim o [ some t ↦ nat_eq t 100 | none ↦ false ]) ≡ true → o ≡ some 100
is_gate-expires none h = cc
is_gate-expires (some t) h = ground arith

read_gate-ok :
    (now : ℕ) (r : Result String) {token : Token}
    → read_gate now r ≡ ok token
    → (r ≡ ok "k") × (record { claims = gate; valid = true } ≡ token) × (now < 100)
read_gate-ok now (err e) h = cc
read_gate-ok now (ok key) h =
    let (tests, same) = test-ok (key == "k" && ltb now 100) (ok _) "bad" h in
    let (known, early) = both (key == "k") (ltb now 100) tests in
    (ap (λ x. ok x) ((eq_iff key "k").0 known), ok_injective same, ltb→lt now 100 early)

read_gate-known :
    (now : ℕ) → now < 100 → read_gate now (ok "k") ≡ ok (record { claims = gate; valid = true })
read_gate-known now h = rw (lt→ltb now 100 h) refl

some_injective : {a b : ℕ} → some a ≡ some b → a ≡ b
some_injective e = cc

until :
    (exp : ℕ) (token : Token) {now : ℕ}
    → token ≡ record { claims = gate; valid = true }
    → token.claims.expires_at ≡ some exp
    → now < 100
    → now < exp
until exp token {now} same e early =
    subst (λ x. now < x) (some_injective (sym (ap (λ (x : Token). x.claims.expires_at) same) ∙ e))
      early

pub laws : JwtLaws signer
unfolding auth
laws = record {
  signed_by = λ m key t c. (m ≡ hs256) × (key ≡ "k") × (t ≡ "x.y.z") × (c ≡ gate);
  parse_ok = λ now keys t token h.
      let (named, read) = test-ok (t == "x.y.z") (read_gate now (keys hs256)) "malformed" h in
      let (keyed, same, early) = read_gate-ok now (keys hs256) read in
      (
        hs256,
        "k",
        keyed,
        (refl, refl, (eq_iff t "x.y.z").0 named, ap (λ (x : Token). x.claims) (sym same)),
        λ exp e. until exp token (sym same) e early,
      );
  parse_signed = λ now exp keys c key t h k e before.
      let (tests, same) = test-ok (key == "k" && is_gate c) (ok "x.y.z") "unknown" h in
      let (known, gated) = both (key == "k") (is_gate c) tests in
      let (others, dated) = both _ _ gated in
      let (named, issuer) = both _ _ others in
      let (subject, role) = both _ _ named in
      let at_100 = is_gate-expires c.expires_at dated in
      let key_is = (eq_iff key "k").0 known in
      let early = subst (λ x. now < x) (some_injective (sym e ∙ at_100)) before in
      (
        record { claims = gate; valid = true },
        rw (sym (ok_injective same), k, key_is, lt→ltb now 100 early) refl,
        refl,
        (
          sym ((eq_iff c.subject "d").0 subject),
          sym ((eq_iff c.role "device").0 role),
          sym ((eq_iff c.issuer "goattend").0 issuer),
          sym at_100,
        ),
      );
  signed_compact = λ c key t h.
      let (_, same) = test-ok (key == "k" && is_gate c) (ok "x.y.z") "unknown" h in
      subst (λ x. trim_space x ≡ x) (ok_injective same) refl;
}

abbrev issued : TokenPair
issued = record {
  access_token = "x.y.z";
  refresh_token = "x.y.z";
  access_exp = 100;
  refresh_exp = 100;
}

abbrev pub clock : Clock
clock = record { access_base = 90; refresh_base = 50; access_issued = 91; refresh_issued = 92 }

parse-issue_example :
    ((now : ℕ) → now < 100 → Carries signer laws now "x.y.z" "k" "d" "device" "goattend" 100)
    × ((now : ℕ) → now < 100 → Carries signer laws now "x.y.z" "k" "d" "device" "goattend" 100)
unfolding auth
parse-issue_example =
    parse-issue signer laws clock "d" "device" "goattend" "k" (pos 10) (pos 50) issued refl

device_auth-admitted_example :
    (rest : String) × (strip_fold "bearer " "Bearer x.y.z" ≡ some rest)
    × laws.signed_by hs256 "k" (trim_space rest) gate
    × ((exp : ℕ) → gate.expires_at ≡ some exp → 7 < exp)
    × ((◌≡◌ {A = String} "goattend" "") ⊎ (gate.issuer ≡ "goattend"))
unfolding auth strip_fold trim_space
device_auth-admitted_example =
    device_auth-admitted signer laws 7 "k" "goattend" "Bearer x.y.z" gate refl
