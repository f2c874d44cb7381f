-- ===== src/RateLimit/Allow.antt =====
-- internal/httpmiddleware/ratelimit.go: which buckets one call of `allow` reads and writes.
use go_attend.Common.{ℕ, String, ◌≡◌, refl, ◌≢◌, true, none, some, arith, Option-cases, inl, inr}
use go_attend.Common.Int.{pos, ◌-ℤ◌, wrap64}
use go_attend.Common.Dict
use go_attend.RateLimit.{
  Float64, Bucket, SimpleTokenBucket, refill_bucket, take_token, allow, allow_at,
}

module _ (f : Float64) (l : SimpleTokenBucket) (now : ℕ) (key : String) where
  pub allow-capacity : (allow f l now key).0.capacity ≡ l.capacity
  unfolding allow
  allow-capacity = ground arith

  pub allow-rate : (allow f l now key).0.rate ≡ l.rate
  unfolding allow
  allow-rate = ground arith

  -- The first request of a key passes and leaves a bucket that lacks one token.
  pub allow-allowed_new : l.state key ≡ none → (allow f l now key).1 ≡ true
  unfolding allow
  allow-allowed_new e = ground arith

  pub allow-state_new :
      l.state key ≡ none
      → (allow f l now key).0.state key
        ≡ some (record { tokens = wrap64 (l.capacity -ℤ pos 1); last = now })
  unfolding allow
  allow-state_new e = rw (e, allow_at) (Dict.put_self key _ l.state)

  module _ {b : Bucket} (found : l.state key ≡ some b) where
    pub allow-allowed : (allow f l now key).1 ≡ (take_token (refill_bucket f l now b)).1
    unfolding allow
    allow-allowed = rw (found, allow_at) refl

    pub allow-state :
        (allow f l now key).0.state key ≡ some (take_token (refill_bucket f l now b)).0
    unfolding allow
    allow-state = rw (found, allow_at) (Dict.put_self key _ l.state)

  -- A request of one key does not touch the bucket of another.
  pub allow-state_ne :
      (other : String) → key ≢ other → (allow f l now key).0.state other ≡ l.state other
  unfolding allow
  allow-state_ne other ne = elim (Option-cases (l.state key)) [
    | inl e ↦ rw (e, allow_at) (Dict.put_ne key other _ l.state ne)
    | inr (b, e) ↦ rw (e, allow_at) (Dict.put_ne key other _ l.state ne)
  ]
