-- ===== src/System.antt =====
-- cmd/api/main.go and cmd/worker/main.go: the API server and the worker, which share the tables and a
-- list of Redis, as steps in any order. A request takes effect as a whole, or one statement and one
-- command at a time, between those of others.
pub mod Soundness
pub mod Named
pub mod Writes
pub mod Settling
mod Tests
use go_attend.Common.{ℕ, String, some, ok, Bool, List, [], ◌∷◌, ◌++◌, ◌≡◌, ◌⊎◌}
use go_attend.Queue.{Message, RedisClient, RedisQueue, emit, again, stop, round_of, publish}
use go_attend.Common.Int.{ℤ}
use go_attend.Attendance.Tables.{Event, Database, Call}
use go_attend.Attendance.Events.{insert_event, recent_event}
use go_attend.Attendance.Integrity.{Write}
use go_attend.Face.Types.{Net}
use go_attend.Face.Client.{Client}
use go_attend.Api.{Publisher}
use go_attend.Api.Server.{Server, Request, Outside, Running, handle}
use go_attend.Worker.{Turn, process}

-- The queue of the API as a list of Redis.
abbrev pub publisher : RedisClient → RedisQueue → Publisher
publisher client q = record { Q = client.Server; send = λ s msg. publish client q s msg }

abbrev pub over_redis : RedisClient → RedisQueue → Outside → Outside
over_redis client q out = record out { queue = publisher client q }

-- The programs outside, the settings of both programs, and the face service.
pub record Setting : Type 1 where
  pub client : RedisClient
  pub queue : RedisQueue
  pub out : Outside
  pub server : Server
  pub net : Net
  pub face : Client

abbrev pub outside : Setting → Outside
outside g = over_redis g.client g.queue g.out

-- The message of a check-in.
abbrev pub checkin_message : String → Message
checkin_message id = record { type = "checkin"; body = id }

module _ (g : Setting) where
  -- `sending` are the ids of the events that a check-in has stored or found and has not yet given to
  -- Publish; `held` are the messages that the consumer has received and the loop has not gone through.
  pub record System : Type 0 where
    pub running : Running (outside g)
    pub sending : List String
    pub held : List Message
    pub faces : g.net.World

  abbrev pub popped : System → g.client.Server
  popped x = (g.client.brpop x.running.q g.queue.key).0

  abbrev pub round : Bool → System → go_attend.Queue.Round
  round cancelled x = round_of cancelled (g.client.brpop x.running.q g.queue.key).1

  abbrev pub after_pop : System → List Message → System
  after_pop x held = record x { running = record x.running { q = popped x }; held = held }

  -- One round of the worker's loop over its messages.
  abbrev pub after_process : System → Turn → Message → List Message → System
  after_process x turn msg rest =
      let r = process g.net g.face turn (x.running.db, x.faces) msg in
      record x { running = record x.running { db = r.0 }; held = rest; faces = r.1 }

  abbrev pub after_write : System → Database → List String → System
  after_write x db sending = record x { running = record x.running { db = db }; sending = sending }

  abbrev pub after_publish : System → String → List String → System
  after_publish x id sending =
      let q = (publish g.client g.queue x.running.q (checkin_message id)).0 in
      record x { running = record x.running { q = q }; sending = sending }

  pub data Step (x : System) : System → Type 0 where
    answers :
        (req : Request)
        → Step x (record x { running = (handle (outside g) g.server x.running req).0 })
    writes : (db : Database) → Write x.running.db db → Step x (after_write x db x.sending)
    stores :
        (call : Call) (uuid : String) (stamp : ℕ) (evt e : Event)
        → (insert_event call x.running.db uuid stamp evt).1 ≡ ok e
        → Step x
            (after_write x (insert_event call x.running.db uuid stamp evt).0 (e.id ∷ x.sending))
    finds :
        (call : Call) (user_id device_id : String) (window : ℤ) (e : Event)
        → recent_event call x.running.db user_id device_id window ≡ ok (some e)
        → Step x (after_write x x.running.db (e.id ∷ x.sending))
    publishes :
        (before after : List String) (id : String)
        → x.sending ≡ before ++ id ∷ after
        → Step x (after_publish x id (before ++ after))
    receives :
        (cancelled : Bool) (msg : Message)
        → round cancelled x ≡ emit msg
        → Step x (after_pop x (x.held ++ msg ∷ []))
    waits :
        (cancelled : Bool)
        → (round cancelled x ≡ again) ⊎ (round cancelled x ≡ stop)
        → Step x (after_pop x x.held)
    processes :
        (turn : Turn) (msg : Message) (rest : List Message)
        → x.held ≡ msg ∷ rest
        → Step x (after_process x turn msg rest)

  pub data Reach (x : System) : System → Type 0 where
    here : Reach x x
    then : (y z : System) → Reach x y → Step y z → Reach x z
