-- ===== src/RateLimit.antt =====
-- internal/httpmiddleware/ratelimit.go: the in-memory token bucket of each client address.
-- A method that changes the limiter under its mutex returns the new limiter. Times are the
-- nanoseconds of the monotonic clock that `time.Now` reads, and `int` is a signed 64-bit number.
pub mod Refill
pub mod Allow
pub mod Budget
pub mod Bound
pub mod Burst
pub mod Invariant
pub mod Tests
use go_attend.Common.{ℕ, String, Bool, true, false, Option, none, some, if◌then◌else◌, ◌==◌}
use go_attend.Common.Int.{ℤ, pos, ◌+ℤ◌, ◌-ℤ◌, ltb_ℤ, leb_ℤ, wrap64}
use go_attend.Common.Dict
use go_attend.Common.Dict.{Dict}

-- The float64 operations that the refill uses.
pub record Float64 : Type 1 where
  pub F : Type 0
  pub minutes : ℤ → F  -- Duration.Minutes
  pub of_int : ℤ → F  -- float64(n)
  pub mul : F → F → F
  pub to_int : F → ℤ  -- int(x)

pub record Bucket : Type 0 where
  pub tokens : ℤ
  pub last : ℕ

pub record SimpleTokenBucket : Type 0 where
  pub capacity : ℤ
  pub rate : ℤ
  pub state : Dict Bucket

unfoldable pub new_simple_token_bucket : ℤ → ℤ → SimpleTokenBucket
new_simple_token_bucket capacity per_minute = record {
  capacity = if leb_ℤ capacity (pos 0) then per_minute else capacity;
  rate = per_minute;
  state = Dict.empty;
}

-- What the middleware decides: the chain goes on, or the request is answered with 429.
pub data Verdict : Type 0 where
  next : Verdict
  too_many_requests : Verdict

unfoldable pub take_token : Bucket → Bucket × Bool
take_token b =
    if leb_ℤ b.tokens (pos 0) then (b, false) else (record b { tokens = b.tokens -ℤ pos 1 }, true)

module _ (f : Float64) where
  -- int(now.Sub(last).Minutes() * float64(rate))
  unfoldable pub refill : ℤ → ℕ → ℕ → ℤ
  refill rate last now = f.to_int (f.mul (f.minutes (pos now -ℤ pos last)) (f.of_int rate))

  unfoldable pub refill_bucket : SimpleTokenBucket → ℕ → Bucket → Bucket
  refill_bucket l now b =
      let amount = refill l.rate b.last now in
      if ltb_ℤ (pos 0) amount
      then (let tokens = wrap64 (b.tokens +ℤ amount) in
          record { tokens = if ltb_ℤ l.capacity tokens then l.capacity else tokens; last = now })
      else b

  -- The two branches of `allow`: a key that is new, and one that has a bucket.
  unfoldable pub allow_at :
      SimpleTokenBucket → ℕ → String → Option Bucket → SimpleTokenBucket × Bool
  unfolding refill_bucket take_token
  allow_at l now key none =
      let b : Bucket = record { tokens = wrap64 (l.capacity -ℤ pos 1); last = now } in
      (record l { state = Dict.put key b l.state }, true)
  allow_at l now key (some b) =
      let (b', allowed) = take_token (refill_bucket l now b) in
      (record l { state = Dict.put key b' l.state }, allowed)

  unfoldable pub allow : SimpleTokenBucket → ℕ → String → SimpleTokenBucket × Bool
  unfolding allow_at
  allow l now key = allow_at l now key (l.state key)

  unfoldable pub gin_middleware : SimpleTokenBucket → ℕ → String → SimpleTokenBucket × Verdict
  unfolding allow
  gin_middleware l now client_ip =
      let ip = if client_ip == "" then "unknown" else client_ip in
      let (l', allowed) = allow l now ip in (l', if allowed then next else too_many_requests)
