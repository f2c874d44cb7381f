-- ===== src/Queue.antt =====
-- internal/queue/queue.go: messages, their wire form, and the Redis queue. A Go string is a text of
-- Unicode characters here, so the body of a message is valid UTF-8.
pub mod Wire
pub mod Redis
pub mod Losses
pub mod InMemory
pub mod Tests
use Prim.Native.Char.{Char, code}
use Prim.Native.String
use go_attend.Common.{
  String, Bool, List, [], ◌∷◌, ◌++◌, nat_eq, if◌then◌else◌, ◌==◌, Result, ok, err,
}

-- `type` is the field Type; the body is text.
pub record Message : Type 0 where
  pub type : String
  pub body : String

unfoldable pub serialize : Message → String
serialize msg = String.◌++◌ msg.type (String.◌++◌ "|" msg.body)

-- The loop of `deserialize`: `seen` is parts[:i] and the last argument is parts[i:].
unfoldable pub split_bar : String → String → String → Message
split_bar whole seen String.[] = record { type = ""; body = whole }
split_bar whole seen (String.◌∷◌ r rest) =
    let more = split_bar whole (String.◌++◌ seen (String.◌∷◌ r "")) rest in
    if nat_eq (code r) b'|' then record { type = seen; body = rest } else more

unfoldable pub deserialize : String → Result Message
unfolding split_bar
deserialize s = ok (split_bar s "" s)

-- What BRPOP answers: a reply of several texts, `redis.Nil` after the timeout, or another error.
pub data Popped : Type 0 where
  reply : List String → Popped
  timeout : Popped
  failed : Popped

-- The Redis commands that the queue uses. `lpush` answers whether it was acknowledged.
pub record RedisClient : Type 1 where
  pub Server : Type 0
  pub lpush : Server → String → String → Server × Result (Unit {0})
  pub brpop : Server → String → Server × Popped

pub record RedisQueue : Type 0 where
  pub key : String

unfoldable pub new_redis_queue : String → RedisQueue
new_redis_queue key = record { key = if key == "" then "attendance:queue" else key }

-- What one round of the consumer's loop does.
pub data Round : Type 0 where
  emit : Message → Round  -- out <- msg
  again : Round  -- the next round, with nothing sent
  stop : Round  -- the goroutine ends and `out` is closed

unfoldable pub received : Result Message → Round
received (ok msg) = emit msg
received (err e) = again

unfoldable pub round_of : Bool → Popped → Round
unfolding received deserialize
round_of cancelled timeout = again
round_of cancelled failed = if cancelled then stop else again
round_of cancelled (reply (k ∷ v ∷ [])) = received (deserialize v)
round_of cancelled (reply _) = again

module _ (r : RedisClient) where
  unfoldable pub publish : RedisQueue → r.Server → Message → r.Server × Result (Unit {0})
  unfolding serialize
  publish q s msg = r.lpush s q.key (serialize msg)

  -- What a round leaves and has sent, where `rest` is what the later rounds do from `s`.
  unfoldable pub after_round : Round → r.Server → r.Server × List Message → r.Server × List Message
  after_round (emit msg) s rest = (rest.0, msg ∷ rest.1)
  after_round again s rest = rest
  after_round stop s rest = (s, [])

  -- The consumer's goroutine. The list says for each round whether its context is done by then.
  unfoldable pub consume : RedisQueue → r.Server → List Bool → r.Server × List Message
  unfolding round_of after_round
  consume q s [] = (s, [])
  consume q s (cancelled ∷ rounds) =
      let (s', popped) = r.brpop s q.key in
      after_round (round_of cancelled popped) s' (consume q s' rounds)
