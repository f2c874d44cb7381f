-- ===== src/Auth/Tokens.antt =====
-- internal/auth: which tokens are accepted, given what golang-jwt promises.
use Prim.Native.String
use go_attend.Common.{
  ℕ, ◌<◌, String, ◌≡◌, refl, subst, true, Bool-cases, inl, inr, ◌⊎◌, Option, none, some, ◌==◌,
  Result, bind-ok, ok_injective, ok,
}
use go_attend.Common.Int.{ℤ}
use go_attend.Auth.{
  TokenPair, Claims, Method, hs256, Token, Jwt, Clock, add_time, key_for, admitted, after_claims,
  claims_of, issue, parse, after_prefix, device_auth,
}
use go_attend.Auth.Text.{strip_fold, trim_space}
use go_attend.Auth.Header.{
  after_parse-valid, after_parse-ok, after_claims-admitted, key_for-ok, bearer-strip_fold,
  bearer-nonempty,
}

-- The claims that a reader of a token sees of those that it was made of.
abbrev pub SameClaims : Claims → Claims → Type 0
SameClaims c d =
    (c.subject ≡ d.subject)
    × (c.role ≡ d.role)
    × (c.issuer ≡ d.issuer)
    × (c.expires_at ≡ d.expires_at)

-- What the documentation of golang-jwt says. `signed_by m key t c`: the text t carries the claims c
-- with a signature by the method m under the key.
pub record JwtLaws (jwt : Jwt) : Type 1 where
  pub signed_by : Method → String → String → Claims → Type 0
  pub parse_ok :
      (now : ℕ) (keys : Method → Result String) (t : String) (token : Token)
      → jwt.parse_with_claims now keys t ≡ ok token
      → (m : Method) × (key : String) × (keys m ≡ ok key)
        × signed_by m key t token.claims
        × ((exp : ℕ) → token.claims.expires_at ≡ some exp → now < exp)
  pub parse_signed :
      (now exp : ℕ) (keys : Method → Result String) (c : Claims) (key t : String)
      → jwt.signed_string c key ≡ ok t
      → keys hs256 ≡ ok key
      → c.expires_at ≡ some exp
      → now < exp
      → (token : Token) × (jwt.parse_with_claims now keys t ≡ ok token)
        × (token.valid ≡ true)
        × SameClaims token.claims c
  pub signed_compact :
      (c : Claims) (key t : String) → jwt.signed_string c key ≡ ok t → trim_space t ≡ t

module _ (jwt : Jwt) (laws : JwtLaws jwt) where
  parse-signed :
      (now exp : ℕ) (c : Claims) (key t : String)
      → jwt.signed_string c key ≡ ok t
      → c.expires_at ≡ some exp
      → now < exp
      → (d : Claims) × (parse jwt now t key c.issuer ≡ ok d) × SameClaims d c
  unfolding parse
  parse-signed now exp c key t signed e before =
      let (token, parsed, valid, (s, r, i, x)) =
        laws.parse_signed now exp (key_for key) c key t signed refl e before in
      (token.claims, rw parsed (after_parse-valid c.issuer token valid i), (s, r, i, x))

  -- The tokens of one call of Issue.
  pub issue-signed :
      (clock : Clock) (subject role issuer key : String) (access_ttl refresh_ttl : ℤ)
      (pair : TokenPair)
      → issue jwt clock subject role issuer key access_ttl refresh_ttl ≡ ok pair
      → (jwt.signed_string
            (claims_of jwt subject role issuer pair.access_exp clock.access_issued)
            key
          ≡ ok pair.access_token)
        × (jwt.signed_string
              (claims_of jwt subject role issuer pair.refresh_exp clock.refresh_issued)
              key
            ≡ ok pair.refresh_token)
        × (pair.access_exp ≡ add_time clock.access_base access_ttl)
        × (pair.refresh_exp ≡ add_time clock.refresh_base refresh_ttl)
  unfolding issue
  issue-signed clock subject role issuer key access_ttl refresh_ttl pair h =
      let access_exp = add_time clock.access_base access_ttl in
      let refresh_exp = add_time clock.refresh_base refresh_ttl in
      let (access, made, rest) =
        bind-ok
          (jwt.signed_string (claims_of jwt subject role issuer access_exp clock.access_issued) key)
          _ h in
      let (refresh, made', rest') =
        bind-ok
          (jwt.signed_string (claims_of jwt subject role issuer refresh_exp clock.refresh_issued)
            key)
          _ rest in
      subst
        (λ (pair : TokenPair).
          (jwt.signed_string (claims_of jwt subject role issuer pair.access_exp clock.access_issued)
              key
            ≡ ok pair.access_token)
          × (jwt.signed_string
                (claims_of jwt subject role issuer pair.refresh_exp clock.refresh_issued) key
              ≡ ok pair.refresh_token)
          × (pair.access_exp ≡ access_exp)
          × (pair.refresh_exp ≡ refresh_exp))
        (ok_injective rest') (made, made', refl, refl)

  -- The claims that Issue was asked for, with the time of expiry of one of the tokens.
  abbrev pub Carries : ℕ → String → String → String → String → String → ℕ → Type 0
  Carries now t key subject role issuer exp =
      (c : Claims) × (parse jwt now t key issuer ≡ ok c)
      × ((c.subject ≡ subject)
          × (c.role ≡ role)
          × (c.issuer ≡ issuer)
          × (c.expires_at ≡ some (jwt.numeric_date exp)))

  -- Both tokens of a successful Issue are parsed with the same key and issuer, each until its time of
  -- expiry, and give the subject, the role and the issuer that they were issued with.
  pub parse-issue :
      (clock : Clock) (subject role issuer key : String) (access_ttl refresh_ttl : ℤ)
      (pair : TokenPair)
      → issue jwt clock subject role issuer key access_ttl refresh_ttl ≡ ok pair
      → ((now : ℕ)
          → now < jwt.numeric_date pair.access_exp
          → Carries now pair.access_token key subject role issuer pair.access_exp)
        × ((now : ℕ)
            → now < jwt.numeric_date pair.refresh_exp
            → Carries now pair.refresh_token key subject role issuer pair.refresh_exp)
  parse-issue clock subject role issuer key access_ttl refresh_ttl pair h =
      let (made, made', _, _) =
        issue-signed clock subject role issuer key access_ttl refresh_ttl pair h in
      (
        λ now before. parse-signed now _ _ key pair.access_token made refl before,
        λ now before. parse-signed now _ _ key pair.refresh_token made' refl before,
      )

  after_prefix-admitted :
      (now : ℕ) (signing_key issuer : String) (left : Option String) {c : Claims}
      → after_prefix jwt now signing_key issuer left ≡ admitted c
      → (rest : String) × (left ≡ some rest)
        × laws.signed_by hs256 signing_key (trim_space rest) c
        × ((exp : ℕ) → c.expires_at ≡ some exp → now < exp)
        × ((issuer ≡ "") ⊎ (c.issuer ≡ issuer))
  unfolding after_prefix parse
  after_prefix-admitted now signing_key issuer none h = cc
  after_prefix-admitted now signing_key issuer (some rest) h =
      let claimed = after_claims-admitted _ h in
      let (token, parsed, same, by) =
        after_parse-ok issuer (jwt.parse_with_claims now (key_for signing_key) (trim_space rest))
          claimed in
      let (m, key, keyed, signed, fresh) = laws.parse_ok now _ _ token parsed in
      let (m_is, key_is) = key_for-ok signing_key m key keyed in
      (
        rest,
        refl,
        rw (m_is, key_is, same) at signed,
        subst (λ (d : Claims). (exp : ℕ) → d.expires_at ≡ some exp → now < exp) same fresh,
        by,
      )

  -- A request is admitted only with a bearer header whose text is signed by HS256 under the signing
  -- key, carries the claims that the handlers are given, has not expired, and is of the issuer, where
  -- one is set.
  pub device_auth-admitted :
      (now : ℕ) (signing_key issuer authz : String) (c : Claims)
      → device_auth jwt now signing_key issuer authz ≡ admitted c
      → (rest : String) × (strip_fold "bearer " authz ≡ some rest)
        × laws.signed_by hs256 signing_key (trim_space rest) c
        × ((exp : ℕ) → c.expires_at ≡ some exp → now < exp)
        × ((issuer ≡ "") ⊎ (c.issuer ≡ issuer))
  unfolding device_auth
  device_auth-admitted now signing_key issuer authz c h = elim (Bool-cases (authz == "")) [
    | inl e ↦ cc (rw e at h)
    | inr e ↦ after_prefix-admitted now signing_key issuer _ (rw e at h)
  ]

  after_prefix-compact :
      (now : ℕ) (key issuer t : String) {c : Claims}
      → trim_space t ≡ t
      → parse jwt now t key issuer ≡ ok c
      → after_prefix jwt now key issuer (some t) ≡ admitted c
  unfolding after_prefix after_claims
  after_prefix-compact now key issuer t compact parsed = rw compact (rw parsed refl)

  -- The access token of a successful Issue is admitted as a bearer until it expires.
  pub device_auth-issue :
      (clock : Clock) (subject role issuer key : String) (access_ttl refresh_ttl : ℤ)
      (pair : TokenPair) (now : ℕ)
      → issue jwt clock subject role issuer key access_ttl refresh_ttl ≡ ok pair
      → now < jwt.numeric_date pair.access_exp
      → (c : Claims) × (device_auth jwt now key issuer (String.◌++◌ "Bearer " pair.access_token)
          ≡ admitted c)
        × (c.subject ≡ subject)
        × (c.role ≡ role)
  unfolding device_auth
  device_auth-issue clock subject role issuer key access_ttl refresh_ttl pair now h before =
      let (made, _, _, _) =
        issue-signed clock subject role issuer key access_ttl refresh_ttl pair h in
      let (c, parsed, (same_subject, same_role, _, _)) =
        parse-signed now _ _ key pair.access_token made refl before in
      (
        c,
        rw (bearer-nonempty pair.access_token, bearer-strip_fold pair.access_token)
            (after_prefix-compact now key issuer pair.access_token
              (laws.signed_compact _ key _ made) parsed),
        same_subject,
        same_role,
      )
