-- ===== src/System/Settling.antt =====
-- cmd/api/main.go and cmd/worker/main.go: what the worker makes of the messages that the API sends.
use go_attend.Common.{◌≡◌, ap, sym, subst, none, List, ◌∷◌, ok, All}
use go_attend.Queue.{Message}
use go_attend.Queue.Redis.{RedisLaws}
use go_attend.Queue.Losses.{LpushFails}
use go_attend.Attendance.Tables.{Event, Call}
use go_attend.Attendance.Events.{get_event}
use go_attend.Face.Client.{embed_with_score}
use go_attend.Worker.{Turn, process}
use go_attend.Worker.Marks.{settled}
use go_attend.Worker.Progress.{process-settled}
use go_attend.System.{Setting, System, Reach, after_process}
use go_attend.System.Named.{IsNamed, named-found}
use go_attend.System.Soundness.{IsSound, Reach-IsSound}

same_message :
    (msg : Message) → msg.type ≡ "checkin" → record { type = "checkin"; body = msg.body } ≡ msg
same_message msg e = ap (λ t. record { type = t; body = msg.body }) (sym e)

-- In every state that the API and the worker reach from a sound one, the next check-in message of the
-- worker names an event that is stored, and while the database answers, the worker's round settles
-- that event by the answer of the face service about its image.
pub Reach-settled :
    (g : Setting) (laws : RedisLaws g.client) (x y : System g) (turn : Turn) (call : Call)
    (msg : Message) (rest : List Message)
    → LpushFails g.client laws
    → IsSound g laws x
    → Reach g x y
    → y.held ≡ msg ∷ rest
    → msg.type ≡ "checkin"
    → turn.fetch.fault ≡ none
    → turn.mark.fault ≡ none
    → call.fault ≡ none
    → (e : Event) × (get_event call y.running.db msg.body ≡ ok e)
      × (get_event call (after_process g y turn msg rest).running.db msg.body
          ≡ ok (settled (embed_with_score g.net g.face y.faces e.image_url).1 e))
Reach-settled g laws x y turn call msg rest fails sound reach first checkin up up' up'' =
    let h = Reach-IsSound g laws fails x y reach sound in
    let named = (subst (All (IsNamed y.running.db)) first h.held_named).0 in
    let (e, found) = named-found call y.running.db msg named up'' in
    (
      e,
      found,
      subst
          (λ m.
            get_event call (process g.net g.face turn (y.running.db, y.faces) m).0 msg.body
            ≡ ok (settled (embed_with_score g.net g.face y.faces e.image_url).1 e))
          (same_message msg checkin)
          (process-settled g.net g.face turn call (y.running.db, y.faces) msg.body e up up' up''
            found),
    )
