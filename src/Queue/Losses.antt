-- ===== src/Queue/Losses.antt =====
-- internal/queue/queue.go: the Redis list after one call of LPUSH or BRPOP, whatever its answer.
use go_attend.Common.{
  String, ◌≡◌, refl, sym, ◌∙◌, subst, ◌⊎◌, inl, inr, Bool, [], ◌∷◌, ◌++◌, map, Result-cases, err,
  All, ap,
}
use mathlib.Core.List.{reverse}
use go_attend.Queue.{
  Message, serialize, RedisClient, RedisQueue, Round, emit, again, stop, round_of, publish,
}
use go_attend.Queue.Wire.{NoBar}
use go_attend.Queue.Redis.{
  RedisLaws, decoded, pending, pending_pop, pending_push, publish-pending, one, same, lost, outcome,
}

-- An error of LPUSH comes before or after the server has done the work.
abbrev pub LpushFails : (r : RedisClient) → RedisLaws r → Type 0
LpushFails r laws =
    (s : r.Server) (k v : String) (s' : r.Server) (e : String)
    → r.lpush s k v ≡ (s', err e)
    → (laws.items s' k ≡ laws.items s k) ⊎ (laws.items s' k ≡ v ∷ laws.items s k)

emitted : {m n : Message} → emit m ≡ emit n → m ≡ n
emitted e = cc

silent : {round : Round} {m : Message} → (round ≡ again) ⊎ (round ≡ stop) → round ≡ emit m → ⊥
silent (inl e) f = cc
silent (inr e) f = cc

module _ (r : RedisClient) (laws : RedisLaws r) (q : RedisQueue) where
  -- A message that was given to Publish has joined the end of the queue, or the queue is as before.
  pub publish-either :
      (s : r.Server) (msg : Message)
      → LpushFails r laws
      → NoBar msg.type
      → (pending r laws q (publish r q s msg).0 ≡ pending r laws q s)
        ⊎ (pending r laws q (publish r q s msg).0 ≡ pending r laws q s ++ msg ∷ [])
  unfolding publish
  publish-either s msg fails plain =
      let sent = publish r q s msg in
      elim (Result-cases sent.1) [
        | inl (t, e) ↦ inr (publish-pending r laws q s sent.0 msg plain (λ i. (sent.0, e i)))
        | inr (text, e) ↦ elim (fails s q.key (serialize msg) sent.0 text (λ i. (sent.0, e i))) [
          | inl kept ↦ inl (ap (λ l. map decoded (reverse l)) kept)
          | inr pushed ↦ inr (pending_push r laws q s sent.0 msg plain pushed)
        ]
      ]

  -- What holds of every message of the queue holds of those that a round leaves and of the one that it
  -- sends on.
  pub round-All :
      (P : Message → Type 0) (c : Bool) (s : r.Server)
      → All P (pending r laws q s)
      → All P (pending r laws q (r.brpop s q.key).0)
        × ((msg : Message) → round_of c (r.brpop s q.key).1 ≡ emit msg → P msg)
  round-All P c s h =
      let s' = (r.brpop s q.key).0 in
      elim (outcome r laws q c s (r.brpop s q.key).1 refl) [
        | one v e round ↦
            let all = subst (All P) (pending_pop r laws q s s' v e) h in
            (all.1, λ msg sent. subst P (emitted (sym round ∙ sent)) all.0)
        | same e round ↦ (
          subst (λ l. All P (map decoded (reverse l))) (sym e) h,
          λ msg sent. absurd (silent round sent),
        )
        | lost v bad e round ↦ (
          (subst (All P) (pending_pop r laws q s s' v e) h).1,
          λ msg sent. absurd (silent round sent),
        )
      ]
