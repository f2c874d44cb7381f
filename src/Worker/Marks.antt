-- ===== src/Worker/Marks.antt =====
-- cmd/worker/main.go: what one status update of the worker does to the tables.
use mathlib.Core.List.{map}
use go_attend.Common.{
  ℕ, String, ◌≡◌, refl, ap, ap₂, ◌∙◌, subst, true, Bool-cases, inl, inr, Option, none, some, List,
  [], ◌∷◌, ◌==◌, eq_iff, Result, ok, err, ok_injective, if_induction, find, arith,
}
use go_attend.Attendance.Tables.{Event, Database, Call, query, execute-keeps, query-ok}
use go_attend.Attendance.Events.{get_event, update_event_status, with_status, has_id, one_row}
use go_attend.Attendance.Updates.{get_event-with_status}
use go_attend.Face.Types.{EmbedResult}
use go_attend.Worker.{Turn, after_embed}

-- What stays of an event whatever the worker does.
abbrev pub frozen : Event → Event
frozen e = record e { status = ""; match_score = none }

-- The tables agree but for the status and the score of the events.
pub record IsKept (db db' : Database) : Type 0 where
  pub devices : db'.devices ≡ db.devices
  pub tokens : db'.refresh_tokens ≡ db.refresh_tokens
  pub employees : db'.employees ≡ db.employees
  pub events : map frozen db'.events ≡ map frozen db.events

pub IsKept-refl : (db : Database) → IsKept db db
IsKept-refl db = record { devices = refl; tokens = refl; employees = refl; events = refl }

pub IsKept-trans : (a b c : Database) → IsKept a b → IsKept b c → IsKept a c
IsKept-trans a b c h k = record {
  devices = k.devices ∙ h.devices;
  tokens = k.tokens ∙ h.tokens;
  employees = k.employees ∙ h.employees;
  events = k.events ∙ h.events;
}

frozen-with_status :
    (id status : String) (score : Option ℕ) (es : List Event)
    → map frozen (map (with_status id status score) es) ≡ map frozen es
frozen-with_status id status score [] = refl
frozen-with_status id status score (e ∷ es) =
    ap₂ ◌∷◌ (if_induction (λ x. frozen x ≡ frozen e) (e.id == id) _ _ (λ _. refl) (λ _. refl))
      (frozen-with_status id status score es)

pub update-IsKept :
    (call : Call) (db : Database) (id status : String) (score : Option ℕ)
    → IsKept db (update_event_status call db id status score).0
unfolding update_event_status
update-IsKept call db id status score =
    execute-keeps (IsKept db) call db _ (IsKept-refl db) (record {
      devices = refl;
      tokens = refl;
      employees = refl;
      events = frozen-with_status id status score db.events;
    })

find-other :
    (id j status : String) (score : Option ℕ) (es : List Event)
    → (id ≡ j → ⊥)
    → find (has_id j) (map (with_status id status score) es) ≡ find (has_id j) es
find-other id j status score [] other = refl
find-other id j status score (e ∷ es) other =
    ground (arith, find-other id j status score es other, eq_iff e.id id, eq_iff e.id j)

pub update-other :
    (mark call : Call) (db : Database) (id j status : String) (score : Option ℕ)
    → (id ≡ j → ⊥)
    → get_event call (update_event_status mark db id status score).0 j ≡ get_event call db j
unfolding update_event_status get_event
update-other mark call db id j status score other =
    execute-keeps (λ d. get_event call d j ≡ get_event call db j) mark db _ refl
      (ap (λ o. query call (one_row o)) (find-other id j status score db.events other))

found-has_id :
    (id : String) (es : List Event) {e : Event}
    → one_row (find (has_id id) es) ≡ ok e
    → has_id id e ≡ true
found-has_id id [] h = cc
found-has_id id (x ∷ es) {e} h = elim (Bool-cases (has_id id x)) [
  | inl here ↦ subst (λ y. has_id id y ≡ true) (ok_injective (rw here at h)) here
  | inr later ↦ found-has_id id es (rw later at h)
]

get_event-has_id :
    (call : Call) (db : Database) (id : String) {e : Event}
    → get_event call db id ≡ ok e
    → has_id id e ≡ true
unfolding get_event
get_event-has_id call db id h = found-has_id id db.events (query-ok call _ h)

-- What the answer of the face service makes of the event.
abbrev pub settled : Result EmbedResult → Event → Event
settled (err _) e = record e { status = "failed" }
settled (ok result) e = record e { status = "processed"; match_score = some result.score }

pub after_embed-settled :
    (turn : Turn) (call : Call) (db : Database) (id : String) (e : Event) (r : Result EmbedResult)
    → turn.mark.fault ≡ none
    → call.fault ≡ none
    → get_event call db id ≡ ok e
    → get_event call (after_embed turn db id r) id ≡ ok (settled r e)
unfolding after_embed
after_embed-settled turn call db id e (err _) up up' found =
    get_event-with_status turn.mark call db id "failed" id none up up'
    ∙ rw found (rw (get_event-has_id call db id found) refl)
after_embed-settled turn call db id e (ok result) up up' found =
    get_event-with_status turn.mark call db id "processed" id (some result.score) up up'
    ∙ rw found (rw (get_event-has_id call db id found) refl)

pub same_answer :
    (call call' : Call) (db : Database) (id : String)
    → call.fault ≡ none
    → call'.fault ≡ none
    → get_event call db id ≡ get_event call' db id
unfolding get_event
same_answer call call' db id up up' = rw (up, up') refl
