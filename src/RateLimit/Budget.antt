-- ===== src/RateLimit/Budget.antt =====
-- internal/httpmiddleware/ratelimit.go: what the tokens and the time that are left pay for.
use Prim.Native.Nat.{min}
use go_attend.Common.{
  ℕ, suc, ◌+◌, ◌-◌, ◌*◌, ◌^◌, ◌≤◌, ◌<◌, String, ◌≡◌, ◌≢◌, Bool, none, some, arith, List, [], ◌∷◌,
  ltb, if◌then◌else◌, ◌==◌, ◌&&◌, eq_iff, Bool-cases, inl, inr, ◌∙◌,
}
use go_attend.Common.Int.{ℤ, pos, ◌-ℤ◌, wrap64, wrap64-pos}
use go_attend.RateLimit.{
  Float64, Bucket, SimpleTokenBucket, refill, refill_bucket, take_token, allow,
}
use go_attend.RateLimit.Refill.{
  minute, RoundsDown, span_small, refill_bucket-tokens, refill_bucket-last, take_token_lem,
  take_token-allowed, take_token-last, pos-sub,
}
use go_attend.RateLimit.Allow.{
  allow-capacity, allow-rate, allow-allowed_new, allow-state_new, allow-allowed, allow-state,
  allow-state_ne,
}

-- How many requests of `key` pass when the requests of a trace arrive one after the other.
unfoldable pub passed : Float64 → SimpleTokenBucket → String → List (ℕ × String) → ℕ
passed f l key [] = 0
passed f l key ((now, k) ∷ rest) =
    let (l', allowed) = allow f l now k in
    let later = passed f l' key rest in if k == key && allowed then suc later else later

-- The times of a trace do not fall, from `start` to `end`.
abbrev pub Within : ℕ → ℕ → List (ℕ × String) → Type 0
Within start end [] = start ≤ end
Within start end ((now, k) ∷ rest) = (start ≤ now) × Within now end rest

pub Within-le : (start end : ℕ) (trace : List (ℕ × String)) → Within start end trace → start ≤ end
Within-le start end [] h = h
Within-le start end ((now, k) ∷ rest) h = omega (arith, h.0, Within-le now end rest h.1)

-- A bucket that holds `n` tokens, at most `c`, and was filled last at `last`, `t` at the latest.
pub record Holds (c t : ℕ) (b : Bucket) : Type 0 where
  pub n : ℕ
  pub tokens : b.tokens ≡ pos n
  pub fits : n ≤ c
  pub past : b.last ≤ t

split_span : (r a b c : ℕ) → a ≤ b → b ≤ c → (c - a) * r ≡ (b - a) * r + (c - b) * r
split_span r a b c h k = grind arith

pub span_mono : (r a b c d : ℕ) → a ≤ b → c ≤ d → (c - b) * r ≤ (d - a) * r
span_mono r a b c d h k = grind arith

-- What one request costs: the tokens and the time that are left pay for it.
step_budget :
    (c n k r last now last' end : ℕ)
    → n ≤ c
    → last ≤ now
    → now ≤ end
    → k * minute ≤ (now - last) * r
    → last' ≡ (if ltb 0 k then now else last)
    → (if ltb 0 (min c (n + k)) then minute else 0)
        + (min c (n + k) - 1) * minute
        + (end - last') * r
      ≤ n * minute + (end - last) * r
step_budget c n k r last now last' end le past ahead paid e =
    rw e (ground (arith, split_span r last now end past ahead))

resume_span :
    (k r last now end : ℕ)
    → last ≤ now
    → now ≤ end
    → (now - last) * r < 2 * (k + 1) * minute
    → (end - (if ltb 0 k then now else last)) * r ≤ (end - now) * r + 2 * minute
resume_span k r last now end past ahead due = ground (arith, split_span r last now end past ahead)

resume_budget :
    (c n k r last now last' end : ℕ)
    → last ≤ now
    → now ≤ end
    → (now - last) * r < 2 * (k + 1) * minute
    → last' ≡ (if ltb 0 k then now else last)
    → (if ltb 0 (min c (n + k)) then minute else 0)
        + (min c (n + k) - 1) * minute
        + (end - last') * r
      ≤ (c + 2) * minute + (end - now) * r
resume_budget c n k r last now last' end past ahead due e =
    rw e (ground (arith, split_span r last now end past ahead))

pub full_less_one :
    (c : ℕ) (z : ℤ) → z ≡ pos c → 0 < c → c < 2 ^ 62 → wrap64 (z -ℤ pos 1) ≡ pos (c - 1)
full_less_one c z e h small = rw e (rw (pos-sub c h) (wrap64-pos (c - 1) (omega arith)))

module _ (f : Float64) (ax : RoundsDown f) (c r : ℕ) (small : c < 2 ^ 62) where
  abbrev pub after : (l : SimpleTokenBucket) (now : ℕ) (b : Bucket) → Bucket × Bool
  after l now b = take_token (refill_bucket f l now b)

  pub bucket_step :
      (l : SimpleTokenBucket) (now end : ℕ) (b : Bucket)
      → l.capacity ≡ pos c
      → l.rate ≡ pos r
      → (h : Holds c now b) → now ≤ end
      → (end - b.last) * r ≤ 2 ^ 50
      → (h' : Holds c now (after l now b).0) × ((if (after l now b).1 then minute else 0)
            + h'.n * minute
            + (end - (after l now b).0.last) * r
          ≤ h.n * minute + (end - b.last) * r)
        × ((end - (after l now b).0.last) * r ≤ 2 ^ 50)
  bucket_step l now end b hc hr h ahead span =
      let k = ax.amount r b.last now in
      let near : (now - b.last) * r ≤ 2 ^ 50 =
        omega (arith, span, span_mono r b.last b.last now end (omega arith) ahead) in
      let (e, paid, _) = ax.amount_lem r b.last now h.past near in
      let e' : refill f l.rate b.last now ≡ pos k = rw hr e in
      let kept : (refill_bucket f l now b).tokens ≡ pos (min c (h.n + k)) =
        refill_bucket-tokens f l now b c h.n k hc h.tokens e' h.fits small (omega arith) in
      let moved : (refill_bucket f l now b).last ≡ (if ltb 0 k then now else b.last) =
        refill_bucket-last f l now b k e' in
      (
        record {
          n = min c (h.n + k) - 1;
          tokens = take_token_lem _ _ kept;
          fits = omega arith;
          past = rw (take_token-last (refill_bucket f l now b)) (rw moved (ground arith));
        },
        rw
            (
              take_token-allowed (refill_bucket f l now b) (min c (h.n + k)) kept,
              take_token-last (refill_bucket f l now b),
            )
            (step_budget c h.n k r b.last now (refill_bucket f l now b).last end h.fits h.past ahead
              paid moved),
        rw (take_token-last (refill_bucket f l now b))
            (rw moved (ground (arith, span_mono r b.last now end end h.past))),
      )

  -- A request after a pause of any length, at most 292 years: the capacity bounds what the pause has
  -- brought, but for what two tokens cost.
  pub bucket_resume :
      (l : SimpleTokenBucket) (now end : ℕ) (b : Bucket)
      → l.capacity ≡ pos c
      → l.rate ≡ pos r
      → (h : Holds c now b) → now ≤ end
      → now < 2 ^ 63
      → r ≤ 2 ^ 30
      → (h' : Holds c now (after l now b).0) × ((if (after l now b).1 then minute else 0)
            + h'.n * minute
            + (end - (after l now b).0.last) * r
          ≤ (c + 2) * minute + (end - now) * r)
        × ((end - (after l now b).0.last) * r ≤ (end - now) * r + 2 * minute)
  bucket_resume l now end b hc hr h ahead clock slow =
      let k = ax.amount r b.last now in
      let (e, paid, due) = ax.amount_coarse r b.last now h.past clock slow in
      let product = span_small b.last now r clock slow in
      let e' : refill f l.rate b.last now ≡ pos k = rw hr e in
      let kept : (refill_bucket f l now b).tokens ≡ pos (min c (h.n + k)) =
        refill_bucket-tokens f l now b c h.n k hc h.tokens e' h.fits small (omega arith) in
      let moved : (refill_bucket f l now b).last ≡ (if ltb 0 k then now else b.last) =
        refill_bucket-last f l now b k e' in
      (
        record {
          n = min c (h.n + k) - 1;
          tokens = take_token_lem _ _ kept;
          fits = omega arith;
          past = rw (take_token-last (refill_bucket f l now b)) (rw moved (ground (arith, h.past)));
        },
        rw
            (
              take_token-allowed (refill_bucket f l now b) (min c (h.n + k)) kept,
              take_token-last (refill_bucket f l now b),
            )
            (resume_budget c h.n k r b.last now (refill_bucket f l now b).last end h.past ahead due
              moved),
        rw (take_token-last (refill_bucket f l now b))
            (rw moved (resume_span k r b.last now end h.past ahead due)),
      )

  module _ (key : String) where
    pub passed_bucket :
        (l : SimpleTokenBucket) (b : Bucket) (t end : ℕ) (trace : List (ℕ × String))
        → l.state key ≡ some b
        → l.capacity ≡ pos c
        → l.rate ≡ pos r
        → (h : Holds c t b) → Within t end trace
        → (end - b.last) * r ≤ 2 ^ 50
        → passed f l key trace * minute ≤ h.n * minute + (end - b.last) * r
    unfolding passed
    passed_bucket l b t end [] found hc hr h w span = omega arith
    passed_bucket l b t end ((now, k) ∷ rest) found hc hr h w span =
        let later : Holds c now b = record {
          n = h.n;
          tokens = h.tokens;
          fits = h.fits;
          past = omega (arith, h.past, w.0);
        } in
        let ahead : now ≤ end = Within-le now end rest w.1 in
        elim (Bool-cases (k == key)) [
          | inl same ↦
              let e : k ≡ key = (eq_iff k key).0 same in
              let (held, budget, near) = bucket_step l now end b hc hr later ahead span in
              let found' : (allow f l now k).0.state key ≡ some (after l now b).0 =
                rw (← e) (allow-state f l now k (rw e found)) in
              let passes : (allow f l now k).1 ≡ (after l now b).1 =
                allow-allowed f l now k (rw e found) in
              let ih =
                passed_bucket (allow f l now k).0 (after l now b).0 now end rest found'
                  (allow-capacity f l now k ∙ hc) (allow-rate f l now k ∙ hr) held w.1 near in
              rw (same, passes) (ground (arith, budget, ih))
          | inr other ↦
              let ne : k ≢ key = λ e. cc ((eq_iff k key).1 e) in
              rw other (
                passed_bucket (allow f l now k).0 b now end rest
                  (allow-state_ne f l now k key ne ∙ found) (allow-capacity f l now k ∙ hc)
                  (allow-rate f l now k ∙ hr) later w.1 span)
        ]

    pub passed_new :
        (l : SimpleTokenBucket) (start end : ℕ) (trace : List (ℕ × String))
        → l.state key ≡ none
        → l.capacity ≡ pos c
        → l.rate ≡ pos r
        → 0 < c
        → Within start end trace
        → (end - start) * r ≤ 2 ^ 50
        → passed f l key trace * minute ≤ c * minute + (end - start) * r
    unfolding passed
    passed_new l start end [] new hc hr some_room w span = omega arith
    passed_new l start end ((now, k) ∷ rest) new hc hr some_room w span =
        let ahead : now ≤ end = Within-le now end rest w.1 in
        let later : (end - now) * r ≤ (end - start) * r =
          span_mono r start now end end w.0 (omega arith) in
        elim (Bool-cases (k == key)) [
          | inl same ↦
              let e : k ≡ key = (eq_iff k key).0 same in
              let fresh : Bucket = record { tokens = wrap64 (l.capacity -ℤ pos 1); last = now } in
              let held : Holds c now fresh = record {
                n = c - 1;
                tokens = full_less_one c l.capacity hc some_room small;
                fits = omega arith;
                past = omega arith;
              } in
              let found : (allow f l now k).0.state key ≡ some fresh =
                rw (← e) (allow-state_new f l now k (rw e new)) in
              let ih =
                passed_bucket (allow f l now k).0 fresh now end rest found
                  (allow-capacity f l now k ∙ hc) (allow-rate f l now k ∙ hr) held w.1
                  (omega (arith, later)) in
              rw (same, allow-allowed_new f l now k (rw e new)) (ground (arith, ih, later))
          | inr other ↦
              let ne : k ≢ key = λ e. cc ((eq_iff k key).1 e) in
              let ih =
                passed_new (allow f l now k).0 now end rest (allow-state_ne f l now k key ne ∙ new)
                  (allow-capacity f l now k ∙ hc) (allow-rate f l now k ∙ hr) some_room w.1
                  (omega (arith, later)) in
              rw other (omega (arith, ih, later))
        ]
