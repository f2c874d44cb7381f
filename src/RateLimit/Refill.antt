-- ===== src/RateLimit/Refill.antt =====
-- internal/httpmiddleware/ratelimit.go: what one call of `allow` does to a bucket.
use Prim.Native.Nat.{min}
use go_attend.Common.{ℕ, ◌+◌, ◌-◌, ◌*◌, ◌^◌, ◌≤◌, ◌<◌, ◌≡◌, arith, ltb, if◌then◌else◌}
use go_attend.Common.Int.{pos, ◌+ℤ◌, ◌-ℤ◌, wrap64-pos}
use go_attend.RateLimit.{Float64, Bucket, SimpleTokenBucket, refill, refill_bucket, take_token}

-- Nanoseconds in a minute.
abbrev pub minute : ℕ
minute = 60000000000

-- What IEEE 754 arithmetic gives for `int(d.Minutes() * float64(rate))`. While the exact product stays
-- below 2 ^ 50, the three roundings never lift the result over the exact quotient, and lower its whole
-- part by one at most. Over any span that a Duration holds, and for a rate up to 2 ^ 30, the result is
-- the exact quotient but for a factor of two.
pub record RoundsDown (f : Float64) : Type 0 where
  pub amount : ℕ → ℕ → ℕ → ℕ
  pub amount_lem :
      (rate last now : ℕ)
      → last ≤ now
      → (now - last) * rate ≤ 2 ^ 50
      → (refill f (pos rate) last now ≡ pos (amount rate last now))
        × (amount rate last now * minute ≤ (now - last) * rate)
        × ((now - last) * rate < (amount rate last now + 2) * minute)
  pub amount_coarse :
      (rate last now : ℕ)
      → last ≤ now
      → now < 2 ^ 63
      → rate ≤ 2 ^ 30
      → (refill f (pos rate) last now ≡ pos (amount rate last now))
        × (amount rate last now * minute ≤ 2 * ((now - last) * rate))
        × ((now - last) * rate < 2 * (amount rate last now + 1) * minute)

mul_mono : (a b c d : ℕ) → a ≤ b → c ≤ d → a * c ≤ b * d
mul_mono a b c d h k = grind arith

pub span_small : (last now r : ℕ) → now < 2 ^ 63 → r ≤ 2 ^ 30 → (now - last) * r ≤ 2 ^ 93
span_small last now r h k =
    let d : now - last ≤ 2 ^ 63 = omega arith in
    omega (arith, mul_mono (now - last) (2 ^ 63) r (2 ^ 30) d k)

pos-add : (a b : ℕ) → pos a +ℤ pos b ≡ pos (a + b)
unfolding ◌+ℤ◌
pos-add a b = ground arith

pub pos-sub : (a : ℕ) → 0 < a → pos a -ℤ pos 1 ≡ pos (a - 1)
unfolding ◌-ℤ◌
pos-sub a h = ground arith

-- A refill adds its amount, as far as the capacity goes.
pub refill_bucket-tokens :
    (f : Float64) (l : SimpleTokenBucket) (now : ℕ) (b : Bucket) (c n k : ℕ)
    → l.capacity ≡ pos c
    → b.tokens ≡ pos n
    → refill f l.rate b.last now ≡ pos k
    → n ≤ c
    → c < 2 ^ 62
    → k < 2 ^ 62
    → (refill_bucket f l now b).tokens ≡ pos (min c (n + k))
unfolding refill_bucket
refill_bucket-tokens f l now b c n k hc hn hk le lc lk =
    rw (hk, hc, hn) (ground (arith, pos-add n k, wrap64-pos (n + k)))

pub refill_bucket-last :
    (f : Float64) (l : SimpleTokenBucket) (now : ℕ) (b : Bucket) (k : ℕ)
    → refill f l.rate b.last now ≡ pos k
    → (refill_bucket f l now b).last ≡ (if ltb 0 k then now else b.last)
unfolding refill_bucket
refill_bucket-last f l now b k hk = rw hk (ground arith)

-- A token is taken exactly when there is one.
pub take_token_lem : (b : Bucket) (g : ℕ) → b.tokens ≡ pos g → (take_token b).0.tokens ≡ pos (g - 1)
unfolding take_token
take_token_lem b g h = rw h (ground (arith, pos-sub g))

pub take_token-allowed : (b : Bucket) (g : ℕ) → b.tokens ≡ pos g → (take_token b).1 ≡ ltb 0 g
unfolding take_token
take_token-allowed b g h = rw h (ground arith)

pub take_token-last : (b : Bucket) → (take_token b).0.last ≡ b.last
unfolding take_token
take_token-last b = ground arith
