-- ===== src/RateLimit/Invariant.antt =====
-- internal/httpmiddleware/ratelimit.go: what holds of every bucket between two requests.
use go_attend.Common.{
  ℕ, ◌-◌, ◌^◌, ◌≤◌, ◌<◌, String, ◌≡◌, some, arith, ◌==◌, eq_iff, Option-cases, Bool-cases, inl, inr,
  sym, subst, ◌∙◌, if◌then◌else◌,
}
use go_attend.Common.Int.{pos}
use mathlib.Core.Option.{some-injective}
use go_attend.RateLimit.{Float64, Bucket, SimpleTokenBucket, allow, gin_middleware}
use go_attend.RateLimit.Refill.{RoundsDown}
use go_attend.RateLimit.Allow.{
  allow-capacity, allow-rate, allow-state_new, allow-state, allow-state_ne,
}
use go_attend.RateLimit.Budget.{full_less_one, Holds, bucket_resume}

-- The limiter has the settings `c` and `r`, and at time `t` no bucket holds less than no token or
-- more than `c`.
pub record IsFilled (c r t : ℕ) (l : SimpleTokenBucket) : Type 0 where
  pub capacity : l.capacity ≡ pos c
  pub rate : l.rate ≡ pos r
  pub each : (key : String) (b : Bucket) → l.state key ≡ some b → Holds c t b

-- Time may pass without a request.
pub IsFilled-later :
    (c r t now : ℕ) (l : SimpleTokenBucket) → IsFilled c r t l → t ≤ now → IsFilled c r now l
IsFilled-later c r t now l h le = record {
  capacity = h.capacity;
  rate = h.rate;
  each = λ key b found.
      let held = h.each key b found in
      record {
        n = held.n;
        tokens = held.tokens;
        fits = held.fits;
        past = omega (arith, held.past);
      };
}

module _ (f : Float64) (ax : RoundsDown f) (c r : ℕ) (room : 0 < c) (small : c < 2 ^ 62) where
  allow-Holds_self :
      (l : SimpleTokenBucket) (t now : ℕ) (key : String) (b : Bucket)
      → IsFilled c r t l
      → t ≤ now
      → now < 2 ^ 63
      → r ≤ 2 ^ 30
      → (allow f l now key).0.state key ≡ some b
      → Holds c now b
  allow-Holds_self l t now key b h le clock slow found = elim (Option-cases (l.state key)) [
    | inl new ↦
        let e = some-injective _ _ (sym (allow-state_new f l now key new) ∙ found) in
        rw (← e) (record {
          n = c - 1;
          tokens = full_less_one c l.capacity h.capacity room small;
          fits = omega arith;
          past = omega arith;
        })
    | inr (old, known) ↦
        let held = h.each key old known in
        let e = some-injective _ _ (sym (allow-state f l now key known) ∙ found) in
        let kept : Holds c now old = record {
          n = held.n;
          tokens = held.tokens;
          fits = held.fits;
          past = omega (arith, held.past);
        } in
        rw (← e) (
          (bucket_resume f ax c r small l now now old h.capacity h.rate kept (omega arith) clock
            slow).0)
  ]

  pub allow-IsFilled :
      (l : SimpleTokenBucket) (t now : ℕ) (key : String)
      → IsFilled c r t l
      → t ≤ now
      → now < 2 ^ 63
      → r ≤ 2 ^ 30
      → IsFilled c r now (allow f l now key).0
  allow-IsFilled l t now key h le clock slow = record {
    capacity = allow-capacity f l now key ∙ h.capacity;
    rate = allow-rate f l now key ∙ h.rate;
    each = λ j b found. elim (Bool-cases (key == j)) [
      | inl same ↦
          let e : key ≡ j = (eq_iff key j).0 same in
          allow-Holds_self l t now key b h le clock slow
            (subst (λ x. (allow f l now key).0.state x ≡ some b) (sym e) found)
      | inr other ↦
          let held =
            h.each j b
              (sym (allow-state_ne f l now key j (λ e. cc ((eq_iff key j).1 e))) ∙ found) in
          record {
            n = held.n;
            tokens = held.tokens;
            fits = held.fits;
            past = omega (arith, held.past);
          }
    ];
  }

-- A request keeps the settings of a limiter with 0 < c < 2 ^ 62, and every bucket between no token
-- and `c`, if the rate is at most 2 ^ 30 and the clock an int64 that does not run backwards.
pub gin_middleware-IsFilled :
    (f : Float64) (c r : ℕ) (l : SimpleTokenBucket) (t now : ℕ) (client_ip : String)
    → RoundsDown f
    → 0 < c
    → c < 2 ^ 62
    → IsFilled c r t l
    → t ≤ now
    → now < 2 ^ 63
    → r ≤ 2 ^ 30
    → IsFilled c r now (gin_middleware f l now client_ip).0
unfolding gin_middleware
gin_middleware-IsFilled f c r l t now client_ip ax room small h le clock slow =
    allow-IsFilled f ax c r room small l t now (if client_ip == "" then "unknown" else client_ip) h
      le clock slow
