-- ===== src/Queue/Redis.antt =====
-- internal/queue/queue.go: the Redis list as a first-in first-out queue of messages.
use mathlib.Core.List.{reverse, reverse-append, reverse-cons, map-append, Sublistᴰ}
use mathlib.Core.List.Sublistᴰ
use go_attend.Common.{
  ok_injective, String, ◌≡◌, refl, ◌⊎◌, inl, inr, Bool, true, false, List, [], ◌∷◌, ◌++◌, map, ok,
  ◌∙◌, ap, sym, subst,
}
use go_attend.Queue.{
  Message, serialize, split_bar, deserialize, Popped, reply, timeout, failed, RedisClient,
  RedisQueue, emit, again, stop, round_of, publish, consume, after_round,
}
use go_attend.Queue.Wire.{NoBar, deserialize-serialize}

-- The list under a key, its head first, and what the documentation of LPUSH and BRPOP says of it. An
-- error may come before or after the server has done the work.
pub record RedisLaws (r : RedisClient) : Type 0 where
  pub items : r.Server → String → List String
  pub lpush_ok :
      (s : r.Server) (k v : String) (s' : r.Server)
      → r.lpush s k v ≡ (s', ok tt)
      → items s' k ≡ v ∷ items s k
  pub brpop_reply :
      (s : r.Server) (k : String) (s' : r.Server) (vs : List String)
      → r.brpop s k ≡ (s', reply vs)
      → (v : String) × (vs ≡ k ∷ v ∷ []) × (items s k ≡ items s' k ++ v ∷ [])
  pub brpop_timeout :
      (s : r.Server) (k : String) (s' : r.Server)
      → r.brpop s k ≡ (s', timeout)
      → items s' k ≡ items s k
  pub brpop_failed :
      (s : r.Server) (k : String) (s' : r.Server)
      → r.brpop s k ≡ (s', failed)
      → (items s' k ≡ items s k) ⊎ ((v : String) × (items s k ≡ items s' k ++ v ∷ []))

abbrev pub decoded : String → Message
decoded v = split_bar v "" v

decoded-serialize : (msg : Message) → NoBar msg.type → decoded (serialize msg) ≡ msg
decoded-serialize msg h = ok_injective (unfold deserialize in deserialize-serialize msg h)

module _ (r : RedisClient) (laws : RedisLaws r) (q : RedisQueue) where
  -- The messages that the consumer has not had, the oldest first.
  abbrev pub pending : r.Server → List Message
  pending s = map decoded (reverse (laws.items s q.key))

  -- No BRPOP of the run ends in an error.
  abbrev pub Undisturbed : r.Server → List Bool → Type 0
  Undisturbed s [] = Unit
  Undisturbed s (c ∷ rounds) =
      ((r.brpop s q.key).1 ≡ failed → ⊥) × Undisturbed (r.brpop s q.key).0 rounds

  pub pending_pop :
      (s s' : r.Server) (v : String)
      → laws.items s q.key ≡ laws.items s' q.key ++ v ∷ []
      → pending s ≡ decoded v ∷ pending s'
  pending_pop s s' v e =
      ap (λ l. map decoded (reverse l)) e
      ∙ ap (map decoded) (reverse-append (laws.items s' q.key) (v ∷ []))

  pub pending_push :
      (s s' : r.Server) (msg : Message)
      → NoBar msg.type
      → laws.items s' q.key ≡ serialize msg ∷ laws.items s q.key
      → pending s' ≡ pending s ++ msg ∷ []
  pending_push s s' msg h e =
      ap (λ l. map decoded (reverse l)) e
      ∙ ap (map decoded) (reverse-cons (serialize msg) (laws.items s q.key))
      ∙ map-append decoded (reverse (laws.items s q.key)) (serialize msg ∷ [])
      ∙ ap (λ m. pending s ++ m ∷ []) (decoded-serialize msg h)

  -- A sent message joins the end of the queue.
  pub publish-pending :
      (s s' : r.Server) (msg : Message)
      → NoBar msg.type
      → publish r q s msg ≡ (s', ok tt)
      → pending s' ≡ pending s ++ msg ∷ []
  unfolding publish
  publish-pending s s' msg h e =
      pending_push s s' msg h (laws.lpush_ok s q.key (serialize msg) s' e)

  -- What a run has sent on, and what it has left, against what was there.
  abbrev Kept : r.Server → r.Server × List Message → Type 0
  Kept s (s', sent) = Sublistᴰ (sent ++ pending s') (pending s)

  Kept-pop :
      (s s' s'' : r.Server) (v : String) (sent : List Message)
      → laws.items s q.key ≡ laws.items s' q.key ++ v ∷ []
      → Kept s' (s'', sent)
      → Sublistᴰ (decoded v ∷ (sent ++ pending s'')) (pending s) × Kept s (s'', sent)
  Kept-pop s s' s'' v sent e h =
      let p = pending_pop s s' v e in (rw p (Sublistᴰ.cons-cons refl h), rw p (Sublistᴰ.cons h))

  Kept-same :
      (s s' s'' : r.Server) (sent : List Message)
      → laws.items s' q.key ≡ laws.items s q.key
      → Kept s' (s'', sent)
      → Kept s (s'', sent)
  Kept-same s s' s'' sent e h =
      subst (λ l. Sublistᴰ (sent ++ pending s'') (map decoded (reverse l))) e h

  -- One round of the loop: a message is sent on, nothing happens, or an error loses a message.
  pub data Outcome (c : Bool) (s : r.Server) : Type 0 where
    one :
        (v : String)
        → laws.items s q.key ≡ laws.items (r.brpop s q.key).0 q.key ++ v ∷ []
        → round_of c (r.brpop s q.key).1 ≡ emit (decoded v)
        → Outcome c s
    same :
        laws.items (r.brpop s q.key).0 q.key ≡ laws.items s q.key
        → (round_of c (r.brpop s q.key).1 ≡ again) ⊎ (round_of c (r.brpop s q.key).1 ≡ stop)
        → Outcome c s
    lost :
        (v : String)
        → (r.brpop s q.key).1 ≡ failed
        → laws.items s q.key ≡ laws.items (r.brpop s q.key).0 q.key ++ v ∷ []
        → (round_of c (r.brpop s q.key).1 ≡ again) ⊎ (round_of c (r.brpop s q.key).1 ≡ stop)
        → Outcome c s

  round_of_failed : (c : Bool) → (round_of c failed ≡ again) ⊎ (round_of c failed ≡ stop)
  unfolding round_of
  round_of_failed true = inr refl
  round_of_failed false = inl refl

  pub outcome : (c : Bool) (s : r.Server) (p : Popped) → (r.brpop s q.key).1 ≡ p → Outcome c s
  unfolding round_of
  outcome c s (reply vs) e =
      let (v, shape, popped) =
        laws.brpop_reply s q.key (r.brpop s q.key).0 vs (λ i. ((r.brpop s q.key).0, e i)) in
      one v popped (rw e (rw shape refl))
  outcome c s timeout e =
      same (laws.brpop_timeout s q.key (r.brpop s q.key).0 (λ i. ((r.brpop s q.key).0, e i)))
        (rw e (inl refl))
  outcome c s failed e =
      elim (laws.brpop_failed s q.key (r.brpop s q.key).0 (λ i. ((r.brpop s q.key).0, e i))) [
        | inl kept ↦ same kept (rw e (round_of_failed c))
        | inr (v, popped) ↦ lost v e popped (rw e (round_of_failed c))
      ]

  consume-Kept : (s : r.Server) (rounds : List Bool) → Kept s (consume r q s rounds)
  unfolding consume
  consume-Kept s [] = Sublistᴰ.refl (pending s)
  consume-Kept s (c ∷ rounds) =
      let s' = (r.brpop s q.key).0 in
      let ih = consume-Kept s' rounds in
      elim (outcome c s (r.brpop s q.key).1 refl) [
        | one v e round ↦ rw (round, after_round) ((Kept-pop s s' _ v _ e ih).0)
        | same e (inl round) ↦ rw (round, after_round) (Kept-same s s' _ _ e ih)
        | same e (inr round) ↦
            rw (round, after_round) (Kept-same s s' _ [] e (Sublistᴰ.refl (pending s')))
        | lost v _ e (inl round) ↦ rw (round, after_round) ((Kept-pop s s' _ v _ e ih).1)
        | lost v _ e (inr round) ↦
            rw (round, after_round) ((Kept-pop s s' _ v [] e (Sublistᴰ.refl (pending s'))).1)
      ]

  consume_exact :
      (s : r.Server) (rounds : List Bool)
      → Undisturbed s rounds
      → (consume r q s rounds).1 ++ pending (consume r q s rounds).0 ≡ pending s
  unfolding consume
  consume_exact s [] h = refl
  consume_exact s (c ∷ rounds) h =
      let s' = (r.brpop s q.key).0 in
      let ih = consume_exact s' rounds h.1 in
      elim (outcome c s (r.brpop s q.key).1 refl) [
        | one v e round ↦
            rw (round, after_round) (ap (◌∷◌ (decoded v)) ih ∙ sym (pending_pop s s' v e))
        | same e (inl round) ↦ rw (round, after_round) (ih ∙ ap (λ l. map decoded (reverse l)) e)
        | same e (inr round) ↦ rw (round, after_round) (ap (λ l. map decoded (reverse l)) e)
        | lost v bad e _ ↦ absurd (h.0 bad)
      ]

-- What the Redis consumer sends on, followed by what it leaves, is a sublist of what was pending,
-- in its order, whatever errors BRPOP answers and whenever the context is done.
pub consume-pending_sublist :
    (r : RedisClient) (laws : RedisLaws r) (q : RedisQueue) (s : r.Server) (rounds : List Bool)
    → Sublistᴰ
        ((consume r q s rounds).1 ++ pending r laws q (consume r q s rounds).0)
        (pending r laws q s)
consume-pending_sublist = consume-Kept

-- A message that is published under an empty or a busy list is delivered after all that were pending
-- and nothing is lost: after any rounds in which no BRPOP ends in an error, what was sent on followed
-- by what is left is what was pending followed by the message, if its type has no separator.
pub publish-consume :
    (r : RedisClient) (laws : RedisLaws r) (q : RedisQueue) (s s' : r.Server) (msg : Message)
    (rounds : List Bool)
    → NoBar msg.type
    → publish r q s msg ≡ (s', ok tt)
    → Undisturbed r laws q s' rounds
    → (consume r q s' rounds).1 ++ pending r laws q (consume r q s' rounds).0
      ≡ pending r laws q s ++ msg ∷ []
publish-consume r laws q s s' msg rounds h sent calm =
    consume_exact r laws q s' rounds calm ∙ publish-pending r laws q s s' msg h sent
