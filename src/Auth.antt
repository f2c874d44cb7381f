-- ===== src/Auth.antt =====
-- internal/auth: the tokens of a device, and the middleware that asks for one. The package golang-jwt is
-- a parameter.
pub mod Text
pub mod Header
pub mod Tokens
pub mod Tests
use go_attend.Common.{
  ℕ, ◌+◌, ◌-◌, String, Option, none, some, Bool, true, false, not, ◌&&◌, if◌then◌else◌, ◌==◌,
  Result, ok, err, ◌>>=◌,
}
use go_attend.Common.Int.{ℤ, pos_part, neg_part}
use go_attend.Auth.Text.{strip_fold, trim_space}

pub record TokenPair : Type 0 where
  pub access_token : String
  pub refresh_token : String
  pub access_exp : ℕ
  pub refresh_exp : ℕ

-- The payload, with the registered claims that the program uses.
pub record Claims : Type 0 where
  pub subject : String
  pub role : String
  pub issuer : String
  pub expires_at : Option ℕ
  pub issued_at : Option ℕ

-- jwt.SigningMethodHS256 is one signing method, and there are others.
pub data Method : Type 0 where
  hs256 : Method
  other : String → Method

pub record Token : Type 0 where
  pub claims : Claims
  pub valid : Bool

-- golang-jwt: NewNumericDate, the SignedString of a token by HS256, and ParseWithClaims at a time and
-- with a function that gives the key of a method.
pub record Jwt : Type 0 where
  pub numeric_date : ℕ → ℕ
  pub signed_string : Claims → String → Result String
  pub parse_with_claims : ℕ → (Method → Result String) → String → Result Token

-- The answers of time.Now to one call of Issue, in their order.
pub record Clock : Type 0 where
  pub access_base : ℕ
  pub refresh_base : ℕ
  pub access_issued : ℕ
  pub refresh_issued : ℕ

-- time.Time.Add; a time before the year 1 does not occur.
abbrev pub add_time : ℕ → ℤ → ℕ
add_time t d = (t + pos_part d) - neg_part d

abbrev pub key_for : String → Method → Result String
key_for key hs256 = ok key
key_for key (other _) = err "unexpected signing method"

unfoldable pub after_parse : String → Result Token → Result Claims
after_parse issuer (err e) = err e
after_parse issuer (ok parsed) =
    if not parsed.valid
    then err "invalid token"
    else (if not (issuer == "") && not (parsed.claims.issuer == issuer)
        then err "issuer mismatch"
        else ok parsed.claims)

-- What the middleware does with a request: 401 with a text, or the next handler with the claims.
pub data Admission : Type 0 where
  unauthorized : String → Admission
  admitted : Claims → Admission

unfoldable pub after_claims : Result Claims → Admission
after_claims (err _) = unauthorized "invalid token"
after_claims (ok claims) = admitted claims

module _ (jwt : Jwt) where
  abbrev pub claims_of : String → String → String → ℕ → ℕ → Claims
  claims_of subject role issuer exp now = record {
    subject = subject;
    role = role;
    issuer = issuer;
    expires_at = some (jwt.numeric_date exp);
    issued_at = some (jwt.numeric_date now);
  }

  unfoldable pub issue : Clock → String → String → String → String → ℤ → ℤ → Result TokenPair
  issue clock subject role issuer key access_ttl refresh_ttl =
      let access_exp = add_time clock.access_base access_ttl in
      let refresh_exp = add_time clock.refresh_base refresh_ttl in
      do
        access_token ←
            jwt.signed_string (claims_of subject role issuer access_exp clock.access_issued) key
        refresh_token ←
            jwt.signed_string (claims_of subject role issuer refresh_exp clock.refresh_issued) key
        ok (record {
          access_token = access_token;
          refresh_token = refresh_token;
          access_exp = access_exp;
          refresh_exp = refresh_exp;
        })

  unfoldable pub parse : ℕ → String → String → String → Result Claims
  unfolding after_parse
  parse now token_str key issuer =
      after_parse issuer (jwt.parse_with_claims now (key_for key) token_str)

  -- What follows the test of the prefix, on what is left of the header.
  unfoldable pub after_prefix : ℕ → String → String → Option String → Admission
  unfolding parse after_claims trim_space
  after_prefix now key issuer none = unauthorized "missing bearer token"
  after_prefix now key issuer (some rest) = after_claims (parse now (trim_space rest) key issuer)

  unfoldable pub device_auth : ℕ → String → String → String → Admission
  unfolding after_prefix strip_fold
  device_auth now signing_key issuer authz =
      if authz == ""
      then unauthorized "missing bearer token"
      else after_prefix now signing_key issuer (strip_fold "bearer " authz)
