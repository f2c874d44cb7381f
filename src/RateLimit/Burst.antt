-- ===== src/RateLimit/Burst.antt =====
-- internal/httpmiddleware/ratelimit.go: requests at one instant, and requests after a pause.
use Prim.Native.Nat.{min}
use go_attend.Common.{
  ℕ, zero, suc, ◌+◌, ◌-◌, ◌*◌, ◌^◌, ◌≤◌, ◌<◌, String, ◌≡◌, refl, true, some, arith, ◌∙◌, ltb,
  if◌then◌else◌, replicate, eq_refl, ap, lt→ltb,
}
use go_attend.Common.Int.{pos, ◌-ℤ◌, wrap64}
use go_attend.RateLimit.{
  Float64, Bucket, SimpleTokenBucket, refill, refill_bucket, take_token, allow,
  new_simple_token_bucket,
}
use go_attend.RateLimit.Refill.{
  minute, RoundsDown, span_small, refill_bucket-tokens, refill_bucket-last, take_token_lem,
  take_token-allowed, take_token-last,
}
use go_attend.RateLimit.Allow.{
  allow-capacity, allow-rate, allow-allowed_new, allow-state_new, allow-allowed, allow-state,
}
use go_attend.RateLimit.Budget.{passed, full_less_one, Holds}

module _ (f : Float64) (ax : RoundsDown f) (c r : ℕ) (small : c < 2 ^ 62) where
  -- The refill of a bucket, as a number.
  refill_amount :
      (l : SimpleTokenBucket) (b : Bucket) (now : ℕ)
      → l.rate ≡ pos r
      → b.last ≤ now
      → (now - b.last) * r ≤ 2 ^ 50
      → refill f l.rate b.last now ≡ pos (ax.amount r b.last now)
  refill_amount l b now hr past span = rw hr ((ax.amount_lem r b.last now past span).0)

  refilled :
      (l : SimpleTokenBucket) (b : Bucket) (now n : ℕ)
      → l.capacity ≡ pos c
      → l.rate ≡ pos r
      → b.tokens ≡ pos n
      → n ≤ c
      → b.last ≤ now
      → (now - b.last) * r ≤ 2 ^ 50
      → (refill_bucket f l now b).tokens ≡ pos (min c (n + ax.amount r b.last now))
  refilled l b now n hc hr hn fits past span =
      let (_, paid, _) = ax.amount_lem r b.last now past span in
      refill_bucket-tokens f l now b c n (ax.amount r b.last now) hc hn
        (refill_amount l b now hr past span) fits small (omega arith)

  module _ (key : String) (now : ℕ) where
    unchanged_last : (k last : ℕ) → k ≡ 0 → last ≡ now → (if ltb 0 k then now else last) ≡ now
    unchanged_last k last e h = ground arith

    same_time : (l : SimpleTokenBucket) (b : Bucket) → b.last ≡ now → (now - b.last) * r ≤ 0
    same_time l b e = ground arith

    burst_bucket :
        (n : ℕ) (l : SimpleTokenBucket) (b : Bucket) (m : ℕ)
        → l.state key ≡ some b
        → l.capacity ≡ pos c
        → l.rate ≡ pos r
        → b.tokens ≡ pos m
        → m ≤ c
        → b.last ≡ now
        → passed f l key (replicate n (now, key)) ≡ min n m
    unfolding passed
    burst_bucket zero l b m found hc hr hm fits e = omega arith
    burst_bucket (suc n) l b m found hc hr hm fits e =
        let none_due = same_time l b e in
        let (_, paid, _) = ax.amount_lem r b.last now (omega arith) (omega arith) in
        let k : ax.amount r b.last now ≡ 0 = omega arith in
        let b' : Bucket = refill_bucket f l now b in
        let full : b'.tokens ≡ pos (min c (m + ax.amount r b.last now)) =
          refilled l b now m hc hr hm fits (omega arith) (omega arith) in
        let same : min c (m + ax.amount r b.last now) ≡ m = omega arith in
        let kept : b'.tokens ≡ pos m = full ∙ ap pos same in
        let moved : b'.last ≡ now =
          refill_bucket-last f l now b (ax.amount r b.last now)
            (refill_amount l b now hr (omega arith) (omega arith))
          ∙ unchanged_last (ax.amount r b.last now) b.last k e in
        let ih =
          burst_bucket n (allow f l now key).0 (take_token b').0 (m - 1)
            (allow-state f l now key found) (allow-capacity f l now key ∙ hc)
            (allow-rate f l now key ∙ hr) (take_token_lem b' m kept) (omega arith)
            (take_token-last b' ∙ moved) in
        rw (eq_refl, allow-allowed f l now key found, take_token-allowed b' m kept, ih)
          (ground arith)

-- A new limiter of `c` tokens lets through exactly the first `c` of any number of requests that one
-- key sends at the same instant, if 0 < c < 2 ^ 62.
pub burst :
    (f : Float64) (c r : ℕ) (key : String) (now n : ℕ)
    → RoundsDown f
    → 0 < c
    → c < 2 ^ 62
    → passed f (new_simple_token_bucket (pos c) (pos r)) key (replicate n (now, key)) ≡ min n c
unfolding new_simple_token_bucket passed
burst f c r key now zero ax room small = omega arith
burst f c r key now (suc n) ax room small =
    let l = new_simple_token_bucket (pos c) (pos r) in
    let hc : l.capacity ≡ pos c = ground arith in
    let fresh : Bucket = record { tokens = wrap64 (l.capacity -ℤ pos 1); last = now } in
    let ih =
      burst_bucket f ax c r small key now n (allow f l now key).0 fresh (c - 1)
        (allow-state_new f l now key refl) (allow-capacity f l now key ∙ hc)
        (allow-rate f l now key) (full_less_one c l.capacity hc room small) (omega arith) refl in
    rw (eq_refl, allow-allowed_new f l now key refl, ih) (omega arith)

-- A key whose bucket was last filled two token intervals ago or more passes, empty or not and however
-- long the pause was, if the limiter has 0 < c < 2 ^ 62 tokens and a rate of at most 2 ^ 30, and the
-- clock is an int64.
pub recovery :
    (f : Float64) (c r : ℕ) (l : SimpleTokenBucket) (key : String) (now : ℕ) (b : Bucket)
    → RoundsDown f
    → 0 < c
    → c < 2 ^ 62
    → l.capacity ≡ pos c
    → l.rate ≡ pos r
    → l.state key ≡ some b
    → Holds c now b
    → now < 2 ^ 63
    → r ≤ 2 ^ 30
    → 2 * minute ≤ (now - b.last) * r
    → (allow f l now key).1 ≡ true
recovery f c r l key now b ax room small hc hr found h clock slow pause =
    let k = ax.amount r b.last now in
    let (e, paid, due) = ax.amount_coarse r b.last now h.past clock slow in
    let product = span_small b.last now r clock slow in
    let full =
      refill_bucket-tokens f l now b c h.n k hc h.tokens (rw hr e) h.fits small (omega arith) in
    allow-allowed f l now key found
    ∙ take_token-allowed (refill_bucket f l now b) (min c (h.n + k)) full
    ∙ lt→ltb 0 _ (omega arith)
