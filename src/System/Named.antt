-- ===== src/System/Named.antt =====
-- cmd/worker/main.go: messages whose event is stored.
use mathlib.Core.List.{map}
use go_attend.Common.{
  String, ◌≡◌, refl, ap, sym, ◌∙◌, subst, true, Bool-cases, inl, inr, ◌==◌, eq_refl, List, [], ◌∷◌,
  All, In, none, some, find, ok, arith,
}
use go_attend.Queue.{Message}
use go_attend.Attendance.Tables.{Event, Database, Call, contains}
use go_attend.Attendance.Events.{get_event, has_id}
use go_attend.Attendance.Keys.{event_ids, contains-cons}
use go_attend.Attendance.Integrity.{IsConsistent}
use go_attend.Worker.{Turn, process, run}
use go_attend.Worker.Marks.{frozen}
use go_attend.Worker.Progress.{run-IsKept}
use go_attend.Face.Types.{Net}
use go_attend.Face.Client.{Client}

-- The body of the message is the id of a stored event.
abbrev pub IsNamed : Database → Message → Type 0
IsNamed db msg = contains msg.body (event_ids db.events) ≡ true

-- All ids of the events of one database are ids of the other.
abbrev pub Grows : Database → Database → Type 0
Grows db db' =
    (id : String)
    → contains id (event_ids db.events) ≡ true
    → contains id (event_ids db'.events) ≡ true

pub same_events-Grows : (db db' : Database) → db'.events ≡ db.events → Grows db db'
same_events-Grows db db' e id h = subst (λ l. contains id (event_ids l) ≡ true) (sym e) h

pub more_events-Grows :
    (db db' : Database) (evt : Event) → db'.events ≡ evt ∷ db.events → Grows db db'
more_events-Grows db db' evt e id h =
    subst (λ l. contains id (event_ids l) ≡ true) (sym e)
      (contains-cons evt.id id (event_ids db.events) h)

pub All-Grows :
    (db db' : Database) (msgs : List Message)
    → Grows db db'
    → All (IsNamed db) msgs
    → All (IsNamed db') msgs
All-Grows db db' [] grows h = tt
All-Grows db db' (msg ∷ msgs) grows h = (grows msg.body h.0, All-Grows db db' msgs grows h.1)

pub In-contains :
    (evt : Event) (es : List Event) → In evt es → contains evt.id (event_ids es) ≡ true
In-contains evt [] there = elim there [ ]
In-contains evt (e ∷ es) (inl here) = rw here (ground (arith, eq_refl e.id))
In-contains evt (e ∷ es) (inr later) =
    contains-cons e.id evt.id (event_ids es) (In-contains evt es later)

pub frozen-ids : (es : List Event) → event_ids (map frozen es) ≡ event_ids es
frozen-ids [] = refl
frozen-ids (e ∷ es) = ap (◌∷◌ e.id) (frozen-ids es)

-- A round of the worker keeps the ids of the events and the consistency of the tables.
pub process-kept :
    (net : Net) (face : Client) (turn : Turn) (db : Database) (w : net.World) (msg : Message)
    → IsConsistent db
    → let r = process net face turn (db, w) msg in Grows db r.0 × IsConsistent r.0
unfolding run
process-kept net face turn db w msg h =
    let (kept, good) = run-IsKept net face (db, w) ((turn, msg) ∷ []) h in
    let r = process net face turn (db, w) msg in
    let ids : event_ids r.0.events ≡ event_ids db.events =
      sym (frozen-ids r.0.events) ∙ ap event_ids kept.events ∙ frozen-ids db.events in
    (λ id there. subst (λ l. contains id l ≡ true) (sym ids) there, good)

-- A stored event is found by its id.
contains-find :
    (id : String) (es : List Event)
    → contains id (event_ids es) ≡ true
    → (e : Event) × (find (has_id id) es ≡ some e)
contains-find id [] h = cc
contains-find id (e ∷ es) h = elim (Bool-cases (e.id == id)) [
  | inl here ↦ (e, rw here refl)
  | inr other ↦ let (found, eq) = contains-find id es (rw other at h) in (found, rw other eq)
]

pub named-found :
    (call : Call) (db : Database) (msg : Message)
    → IsNamed db msg
    → call.fault ≡ none
    → (e : Event) × (get_event call db msg.body ≡ ok e)
unfolding get_event
named-found call db msg named up =
    let (e, found) = contains-find msg.body db.events named in (e, rw (up, found) refl)
