-- ===== src/System/Soundness.antt =====
-- cmd/api/main.go and cmd/worker/main.go: what holds of the tables and the messages in every
-- interleaving of the two programs.
use go_attend.Common.{
  String, ◌≡◌, refl, ap, sym, subst, inl, inr, List, [], ◌∷◌, ◌++◌, All, All-append, arith,
}
use go_attend.Queue.{Message, publish}
use go_attend.Queue.Wire.{NoBar}
use go_attend.Queue.Redis.{RedisLaws, pending}
use go_attend.Queue.Losses.{LpushFails, publish-either, round-All}
use go_attend.Attendance.Tables.{Database}
use go_attend.Attendance.Events.{insert_event}
use go_attend.Attendance.Spacing.{recent_some}
use go_attend.Attendance.Integrity.{IsConsistent, Write, Write-IsConsistent, put_event}
use go_attend.Api.Server.{Route, Answer, Running, handle}
use go_attend.Api.Changes.{Change, nothing, registers, checks_in, handle-Change}
use go_attend.Api.Consistency.{handle-IsConsistent}
use go_attend.Worker.{process}
use go_attend.System.{
  Setting, outside, System, Step, answers, writes, stores, finds, publishes, after_write,
  after_publish, receives, waits, processes, Reach, here, then,
}
use go_attend.System.Writes.{IsStored, All-apart, ids-Grows, Write-Grows, insert_event-In}
use go_attend.System.Named.{
  IsNamed, Grows, same_events-Grows, more_events-Grows, All-Grows, In-contains, process-kept,
}

checkin-NoBar : NoBar "checkin"
checkin-NoBar = grind arith

module _ (g : Setting) (laws : RedisLaws g.client) where
  abbrev queued : Running (outside g) → List Message
  queued st = pending g.client laws g.queue st.q

  -- The tables are consistent, and every message that is queued, held or still to be sent names a
  -- stored event.
  pub record IsSound (x : System g) : Type 0 where
    pub consistent : IsConsistent x.running.db
    pub queued_named : All (IsNamed x.running.db) (queued x.running)
    pub sending_stored : All (IsStored x.running.db) x.sending
    pub held_named : All (IsNamed x.running.db) x.held

  -- The events stay, and the messages of the queue still name events.
  abbrev Follows : Running (outside g) → Running (outside g) → Type 0
  Follows st st' =
      Grows st.db st'.db × (All (IsNamed st.db) (queued st) → All (IsNamed st'.db) (queued st'))

  same_queue-Follows :
      (st st' : Running (outside g)) → Grows st.db st'.db → st'.q ≡ st.q → Follows st st'
  same_queue-Follows st st' grows same = (
    grows,
    λ h.
        subst (λ s. All (IsNamed st'.db) (pending g.client laws g.queue s)) (sym same)
          (All-Grows st.db st'.db (queued st) grows h),
  )

  module _ (fails : LpushFails g.client laws) where
    published-Follows :
        (st st' : Running (outside g)) (id : String)
        → Grows st.db st'.db
        → IsNamed st'.db (record { type = "checkin"; body = id })
        → st'.q ≡ (publish g.client g.queue st.q (record { type = "checkin"; body = id })).0
        → Follows st st'
    published-Follows st st' id grows named sent =
        let msg : Message = record { type = "checkin"; body = id } in
        (
          grows,
          λ h.
              let old = All-Grows st.db st'.db (queued st) grows h in
              subst (λ s. All (IsNamed st'.db) (pending g.client laws g.queue s)) (sym sent)
                (elim (publish-either g.client laws g.queue st.q msg fails checkin-NoBar) [
                  | inl same ↦ subst (All (IsNamed st'.db)) (sym same) old
                  | inr joined ↦
                      subst (All (IsNamed st'.db)) (sym joined)
                        (All-append (IsNamed st'.db) (queued st) (msg ∷ []) old (named, tt))
                ]),
        )

    Change-Follows :
        (st : Running (outside g)) (route : Route) (r : Running (outside g) × Answer)
        → Change (outside g) g.server st route r
        → Follows st r.0
    Change-Follows st route _ (nothing st' a same) =
        same_queue-Follows st st' (same_events-Grows st.db st'.db (ap (λ t. t.0.events) same))
          (ap (λ t. t.1) same)
    Change-Follows st route _ (registers st' a h) =
        same_queue-Follows st st' (same_events-Grows st.db st'.db h.rows.0) h.queue
    Change-Follows st route _ (checks_in st' a h) =
        let grown = elim h.accepted.growth as (λ _. Grows st.db st'.db) [
          | inl same ↦ same_events-Grows st.db st'.db (ap (λ d. d.events) same)
          | inr more ↦ more_events-Grows st.db st'.db h.accepted.evt more
        ] in
        published-Follows st st' h.accepted.evt.id grown
          (In-contains h.accepted.evt st'.db.events h.accepted.present) h.accepted.given

    -- One statement by itself, with the check-ins that have still to be published.
    after_write-IsSound :
        (x : System g) (db : Database) (sending : List String)
        → Write x.running.db db
        → IsSound x
        → All (IsStored db) sending
        → IsSound (after_write g x db sending)
    after_write-IsSound x db sending write h stored =
        let grows = Write-Grows x.running.db db write in
        record {
          consistent = Write-IsConsistent x.running.db db write h.consistent;
          queued_named = All-Grows x.running.db db (queued x.running) grows h.queued_named;
          sending_stored = stored;
          held_named = All-Grows x.running.db db x.held grows h.held_named;
        }

    Step-IsSound : (x y : System g) → Step g x y → IsSound x → IsSound y
    Step-IsSound x _ (answers req) h =
        let r = handle (outside g) g.server x.running req in
        let (grows, follows) =
          Change-Follows x.running req.route r (handle-Change (outside g) g.server x.running req) in
        record {
          consistent = handle-IsConsistent (outside g) g.server x.running req h.consistent;
          queued_named = follows h.queued_named;
          sending_stored = ids-Grows x.running.db r.0.db x.sending grows h.sending_stored;
          held_named = All-Grows x.running.db r.0.db x.held grows h.held_named;
        }
    Step-IsSound x _ (writes db write) h =
        after_write-IsSound x db x.sending write h
          (ids-Grows x.running.db db x.sending (Write-Grows x.running.db db write) h.sending_stored)
    Step-IsSound x _ (stores call uuid stamp evt e stored) h =
        let db = (insert_event call x.running.db uuid stamp evt).0 in
        let write = put_event call uuid stamp evt in
        after_write-IsSound x db (e.id ∷ x.sending) write h (
          In-contains e db.events (insert_event-In call x.running.db uuid stamp evt e stored),
          ids-Grows x.running.db db x.sending (Write-Grows x.running.db db write) h.sending_stored,
        )
    Step-IsSound x _ (finds call user_id device_id window e found) h = record {
      consistent = h.consistent;
      queued_named = h.queued_named;
      sending_stored = (
        In-contains e x.running.db.events
            (recent_some call x.running.db user_id device_id window e found).0,
        h.sending_stored,
      );
      held_named = h.held_named;
    }
    Step-IsSound x _ (publishes before after id shape) h =
        let st = x.running in
        let st' = (after_publish g x id (before ++ after)).running in
        let (stored, others) =
          All-apart (IsStored st.db) before after id
            (subst (All (IsStored st.db)) shape h.sending_stored) in
        record {
          consistent = h.consistent;
          queued_named =
              (published-Follows st st' id (λ j there. there) stored refl).1 h.queued_named;
          sending_stored = others;
          held_named = h.held_named;
        }
    Step-IsSound x _ (receives cancelled msg sent) h =
        let (left, named) =
          round-All g.client laws g.queue (IsNamed x.running.db) cancelled x.running.q
            h.queued_named in
        record {
          consistent = h.consistent;
          queued_named = left;
          sending_stored = h.sending_stored;
          held_named =
              All-append (IsNamed x.running.db) x.held (msg ∷ []) h.held_named (named msg sent, tt);
        }
    Step-IsSound x _ (waits cancelled silent) h =
        let (left, named) =
          round-All g.client laws g.queue (IsNamed x.running.db) cancelled x.running.q
            h.queued_named in
        record {
          consistent = h.consistent;
          queued_named = left;
          sending_stored = h.sending_stored;
          held_named = h.held_named;
        }
    Step-IsSound x _ (processes turn msg rest first) h =
        let db = (process g.net g.face turn (x.running.db, x.faces) msg).0 in
        let (grows, good) = process-kept g.net g.face turn x.running.db x.faces msg h.consistent in
        record {
          consistent = good;
          queued_named = All-Grows x.running.db db (queued x.running) grows h.queued_named;
          sending_stored = ids-Grows x.running.db db x.sending grows h.sending_stored;
          held_named =
              All-Grows x.running.db db rest grows
                (subst (All (IsNamed x.running.db)) first h.held_named).1;
        }

    -- In every interleaving of the requests to the API with the rounds of the worker, also where the
    -- statements and the commands of several requests alternate, the tables stay consistent, and every
    -- message in the list of Redis, with the worker or still to be sent names a stored event, if that is
    -- so at the start. Commands to Redis may fail before or after their work.
    pub Reach-IsSound : (x y : System g) → Reach g x y → IsSound x → IsSound y
    Reach-IsSound x _ here h = h
    Reach-IsSound x z (then y _ before step) h = Step-IsSound y z step (Reach-IsSound x y before h)
