-- ===== src/RateLimit/Bound.antt =====
-- internal/httpmiddleware/ratelimit.go: how many requests of one key pass over a stretch of time.
use go_attend.Common.{
  ℕ, ◌+◌, ◌-◌, ◌*◌, ◌^◌, ◌≤◌, ◌<◌, String, ◌≡◌, ◌≢◌, some, arith, List, [], ◌∷◌, ◌==◌, eq_iff,
  Bool-cases, Option-cases, inl, inr, ◌∙◌,
}
use go_attend.Common.Int.{pos}
use go_attend.RateLimit.{Float64, Bucket, SimpleTokenBucket, allow}
use go_attend.RateLimit.Refill.{minute, RoundsDown}
use go_attend.RateLimit.Allow.{
  allow-capacity, allow-rate, allow-allowed, allow-state, allow-state_ne,
}
use go_attend.RateLimit.Budget.{
  Holds, Within, Within-le, after, bucket_resume, passed, passed_bucket, passed_new, span_mono,
}

-- At the start of a stretch of time the key has no bucket, or one that holds at most `c` tokens and was
-- filled last before.
abbrev pub IsReady : ℕ → ℕ → SimpleTokenBucket → String → Type 0
IsReady c start l key = (b : Bucket) → l.state key ≡ some b → Holds c start b

module _ (f : Float64) (ax : RoundsDown f) (c r : ℕ) (small : c < 2 ^ 62) (key : String) where
  passed_ready :
      (l : SimpleTokenBucket) (b : Bucket) (start end : ℕ) (trace : List (ℕ × String))
      → l.state key ≡ some b
      → l.capacity ≡ pos c
      → l.rate ≡ pos r
      → Holds c start b
      → Within start end trace
      → end < 2 ^ 63
      → r ≤ 2 ^ 30
      → (end - start) * r ≤ 2 ^ 49
      → passed f l key trace * minute ≤ (c + 2) * minute + (end - start) * r
  unfolding passed
  passed_ready l b start end [] found hc hr h w clock slow span = omega arith
  passed_ready l b start end ((now, k) ∷ rest) found hc hr h w clock slow span =
      let later : Holds c now b = record {
        n = h.n;
        tokens = h.tokens;
        fits = h.fits;
        past = omega (arith, h.past, w.0);
      } in
      let ahead : now ≤ end = Within-le now end rest w.1 in
      let shorter : (end - now) * r ≤ (end - start) * r =
        span_mono r start now end end w.0 (omega arith) in
      elim (Bool-cases (k == key)) [
        | inl same ↦
            let e : k ≡ key = (eq_iff k key).0 same in
            let (held, budget, near) =
              bucket_resume f ax c r small l now end b hc hr later ahead (omega arith) slow in
            let found' : (allow f l now k).0.state key ≡ some (after f ax c r small l now b).0 =
              rw (← e) (allow-state f l now k (rw e found)) in
            let passes : (allow f l now k).1 ≡ (after f ax c r small l now b).1 =
              allow-allowed f l now k (rw e found) in
            let ih =
              passed_bucket f ax c r small key (allow f l now k).0 (after f ax c r small l now b).0
                now end rest found' (allow-capacity f l now k ∙ hc) (allow-rate f l now k ∙ hr) held
                w.1 (omega (arith, near, shorter)) in
            rw (same, passes) (ground (arith, budget, ih, shorter))
        | inr other ↦
            let ne : k ≢ key = λ e. cc ((eq_iff k key).1 e) in
            let ih =
              passed_ready (allow f l now k).0 b now end rest
                (allow-state_ne f l now k key ne ∙ found) (allow-capacity f l now k ∙ hc)
                (allow-rate f l now k ∙ hr) later w.1 clock slow (omega (arith, shorter)) in
            rw other (omega (arith, ih, shorter))
      ]

  -- Over any stretch of time, from any state of a limiter of `c` tokens and `r` a minute whose bucket
  -- for the key holds at most `c` tokens, however long ago it was filled, and on any sequence of
  -- requests of any clients, the requests of the key that pass are at most `c` and two more, and `r` for
  -- each minute of the stretch. The capacity is from 1 to 2 ^ 62 - 1, the rate at most 2 ^ 30, the
  -- clock an int64, and the length of the stretch in nanoseconds times the rate at most 2 ^ 49.
  pub rate_bound :
      (l : SimpleTokenBucket) (start end : ℕ) (trace : List (ℕ × String))
      → 0 < c
      → l.capacity ≡ pos c
      → l.rate ≡ pos r
      → IsReady c start l key
      → Within start end trace
      → end < 2 ^ 63
      → r ≤ 2 ^ 30
      → (end - start) * r ≤ 2 ^ 49
      → passed f l key trace * minute ≤ (c + 2) * minute + (end - start) * r
  rate_bound l start end trace room hc hr ready w clock slow span =
      elim (Option-cases (l.state key)) [
        | inl new ↦
            omega (
              arith,
              passed_new f ax c r small key l start end trace new hc hr room w (omega arith),
            )
        | inr (b, found) ↦
            passed_ready l b start end trace found hc hr (ready b found) w clock slow span
      ]
