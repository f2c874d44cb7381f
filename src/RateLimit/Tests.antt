-- ===== src/RateLimit/Tests.antt =====
-- internal/httpmiddleware/ratelimit.go: the limiter on concrete requests.
use Prim.Native.Nat.{min}
use go_attend.Common.{
  ℕ, ◌+◌, ◌-◌, ◌*◌, ◌/◌, ◌≤◌, ◌≡◌, refl, ap, sym, true, some, [], ◌∷◌, arith, replicate,
}
use go_attend.Common.Int.{pos, pos_part, ◌+ℤ◌, ◌-ℤ◌, wrap64}
use mathlib.Core.Option.{some-injective}
use go_attend.Common.Dict
use go_attend.RateLimit.{
  Float64, Bucket, SimpleTokenBucket, refill, allow, gin_middleware, new_simple_token_bucket,
}
use go_attend.RateLimit.Refill.{minute, RoundsDown}
use go_attend.RateLimit.Budget.{passed, Holds}
use go_attend.RateLimit.Bound.{rate_bound, IsReady}
use go_attend.RateLimit.Burst.{burst, recovery}
use go_attend.RateLimit.Invariant.{IsFilled, gin_middleware-IsFilled}

-- Exact arithmetic in nanoseconds.
abbrev pub exact : Float64
exact = record {
  F = ℕ;
  minutes = λ d. pos_part d;
  of_int = λ n. pos_part n;
  mul = λ a b. a * b;
  to_int = λ a. pos (a / minute);
}

exact_lem :
    (rate last now : ℕ)
    → last ≤ now
    → refill exact (pos rate) last now ≡ pos ((now - last) * rate / minute)
unfolding refill ◌-ℤ◌
exact_lem rate last now h = ground arith

pub exact-RoundsDown : RoundsDown exact
exact-RoundsDown = record {
  amount = λ rate last now. (now - last) * rate / minute;
  amount_lem = λ rate last now h span. (exact_lem rate last now h, omega arith, omega arith);
  amount_coarse =
      λ rate last now h clock slow. (exact_lem rate last now h, omega arith, omega arith);
}

abbrev limiter : SimpleTokenBucket
limiter = new_simple_token_bucket (pos 2) (pos 60)

-- Two requests pass at once, a third does not, and one passes a second later.
limiter_run :
    passed exact limiter "a" ((0, "a") ∷ (0, "b") ∷ (0, "a") ∷ (0, "a") ∷ (1000000000, "a") ∷ [])
    ≡ 3
unfolding passed allow refill new_simple_token_bucket Dict.put wrap64 ◌+ℤ◌ ◌-ℤ◌
limiter_run = refl

-- A limiter that is configured with no tokens lets the first request of a key through, and no other.
no_tokens :
    passed exact (new_simple_token_bucket (pos 0) (pos 0)) "a" ((0, "a") ∷ (5, "a") ∷ (9, "a") ∷ [])
    ≡ 1
unfolding passed allow refill new_simple_token_bucket Dict.put wrap64 ◌+ℤ◌ ◌-ℤ◌
no_tokens = refl

abbrev idle_bucket : Bucket
idle_bucket = record { tokens = pos 1; last = 3 }

abbrev idle : SimpleTokenBucket
idle = record { capacity = pos 2; rate = pos 60; state = λ key. some idle_bucket }

idle-IsReady : IsReady 2 86400000000000 idle "a"
idle-IsReady b e = record {
  n = 1;
  tokens = ap (λ b. b.tokens) (sym (some-injective _ _ e));
  fits = omega arith;
  past = omega (arith, ap (λ b. b.last) (some-injective _ _ e));
}

-- A key that has paused for a day.
rate_bound_example :
    passed exact idle "a"
        ((86400000000000, "a") ∷ (86400000000007, "b") ∷ (86400000000009, "a") ∷ [])
      * minute
    ≤ (2 + 2) * minute + (86400000000009 - 86400000000000) * 60
rate_bound_example =
    rate_bound exact exact-RoundsDown 2 60 (omega arith) "a" idle 86400000000000 86400000000009
      ((86400000000000, "a") ∷ (86400000000007, "b") ∷ (86400000000009, "a") ∷ []) (omega arith)
      refl refl idle-IsReady (omega arith) (omega arith) (omega arith) (omega arith)

burst_example :
    passed exact (new_simple_token_bucket (pos 2) (pos 60)) "a" (replicate 5 (7, "a")) ≡ min 5 2
burst_example = burst exact 2 60 "a" 7 5 exact-RoundsDown (omega arith) (omega arith)

abbrev empty_bucket : Bucket
empty_bucket = record { tokens = pos 0; last = 3 }

abbrev drained : SimpleTokenBucket
drained = record { capacity = pos 2; rate = pos 60; state = λ key. some empty_bucket }

empty_bucket-Holds : (t : ℕ) → 3 ≤ t → Holds 2 t empty_bucket
empty_bucket-Holds t h = record { n = 0; tokens = refl; fits = omega arith; past = h }

recovery_example : (allow exact drained 86400000000003 "a").1 ≡ true
recovery_example =
    recovery exact 2 60 drained "a" 86400000000003 empty_bucket exact-RoundsDown (omega arith)
      (omega arith) refl refl refl (empty_bucket-Holds 86400000000003 (omega arith)) (omega arith)
      (omega arith) (omega arith)

limiter-IsFilled : IsFilled 2 60 3 limiter
unfolding new_simple_token_bucket
limiter-IsFilled = record { capacity = refl; rate = refl; each = λ key b e. cc }

gin_middleware-IsFilled_example : IsFilled 2 60 8 (gin_middleware exact limiter 8 "").0
gin_middleware-IsFilled_example =
    gin_middleware-IsFilled exact 2 60 limiter 3 8 "" exact-RoundsDown (omega arith) (omega arith)
      limiter-IsFilled (omega arith) (omega arith) (omega arith)
