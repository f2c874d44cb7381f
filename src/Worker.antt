-- ===== src/Worker.antt =====
-- cmd/worker/main.go: the worker, which reads the queue, asks the face service about the image of each
-- event and records the answer in the event.
pub mod Marks
pub mod Progress
pub mod Tests
use go_attend.Common.{String, List, [], ◌∷◌, none, some, if◌then◌else◌, ◌==◌, Result, ok, err}
use go_attend.Queue.{Message, RedisQueue, new_redis_queue}
use go_attend.Attendance.Tables.{Event, Database, Call}
use go_attend.Attendance.Events.{get_event, update_event_status}
use go_attend.Face.Types.{EmbedResult, Net}
use go_attend.Face.Client.{Client, embed_with_score}

-- The queue that the setting QueueBackend chooses: queue.NewInMemory(64) or a Redis list.
pub data Backend : Type 0 where
  memory : Backend
  redis : RedisQueue → Backend

unfoldable pub choose_queue : String → Backend
unfolding new_redis_queue
choose_queue queue_backend =
    if queue_backend == "memory" then memory else redis (new_redis_queue "attendance:checkins")

-- The calls of the database in one round of the loop: GetEvent, and UpdateEventStatus.
pub record Turn : Type 0 where
  pub fetch : Call
  pub mark : Call

-- The row is marked by the answer of the face service; an error of the update is ignored.
unfoldable pub after_embed : Turn → Database → String → Result EmbedResult → Database
unfolding update_event_status
after_embed turn db id (err e) = (update_event_status turn.mark db id "failed" none).0
after_embed turn db id (ok result) =
    (update_event_status turn.mark db id "processed" (some result.score)).0

module _ (net : Net) (face : Client) where
  abbrev pub State : Type 0
  State = Database × net.World

  unfoldable pub after_fetch : Turn → State → String → Result Event → State
  unfolding after_embed embed_with_score
  after_fetch turn (db, w) id (err e) = (db, w)
  after_fetch turn (db, w) id (ok evt) =
      let answer = embed_with_score net face w evt.image_url in
      (after_embed turn db id answer.1, answer.0)

  -- One round of the loop over the messages.
  unfoldable pub process : Turn → State → Message → State
  unfolding after_fetch get_event
  process turn state msg =
      if msg.type == "checkin"
      then after_fetch turn state msg.body (get_event turn.fetch state.0 msg.body)
      else state

  -- The loop, with the calls of each round.
  unfoldable pub run : State → List (Turn × Message) → State
  unfolding process
  run state [] = state
  run state ((turn, msg) ∷ rest) = run (process turn state msg) rest
