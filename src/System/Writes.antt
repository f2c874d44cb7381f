-- ===== src/System/Writes.antt =====
-- internal/attendance/repo.go: no statement takes an event away, and what one stores or finds is there.
use go_attend.Common.{
  ℕ, String, ◌≡◌, ap, sym, ◌∙◌, subst, true, Option, List, [], ◌∷◌, ◌++◌, All, In, ok, Result, inl,
  inr, arith, ◌==◌, if◌then◌else◌, if_induction, Option-cases, Bool-cases, ok_injective,
}
use go_attend.Attendance.Tables.{Event, Database, Call, contains, execute-keeps}
use go_attend.Attendance.Events.{
  upsert_device, save_refresh_token, revoke_refresh_token, insert_event, update_event_status,
}
use go_attend.Attendance.Employees.{upsert_employee, set_employee_face_enrolled}
use go_attend.Attendance.Keys.{event_ids, contains-cons}
use go_attend.Attendance.Integrity.{
  Write, put_device, put_token, revoke_token, put_event, put_status, put_employee, put_face,
}
use go_attend.Worker.Marks.{update-IsKept}
use go_attend.System.{checkin_message}
use go_attend.System.Named.{IsNamed, Grows, same_events-Grows, frozen-ids}

pub All-apart :
    {A : Type 0} (P : A → Type 0) (xs ys : List A) (y : A)
    → All P (xs ++ y ∷ ys)
    → P y × All P (xs ++ ys)
All-apart P [] ys y h = h
All-apart P (x ∷ xs) ys y h = let (here, others) = All-apart P xs ys y h.1 in (here, (h.0, others))

-- The id is that of a stored event.
abbrev pub IsStored : Database → String → Type 0
IsStored db id = IsNamed db (checkin_message id)

pub ids-Grows :
    (db db' : Database) (ids : List String)
    → Grows db db'
    → All (IsStored db) ids
    → All (IsStored db') ids
ids-Grows db db' [] grows h = tt
ids-Grows db db' (id ∷ ids) grows h = (grows id h.0, ids-Grows db db' ids grows h.1)

status-Grows :
    (call : Call) (db : Database) (id status : String) (score : Option ℕ)
    → Grows db (update_event_status call db id status score).0
status-Grows call db id status score j there =
    let kept = update-IsKept call db id status score in
    let after = (update_event_status call db id status score).0 in
    let ids : event_ids after.events ≡ event_ids db.events =
      sym (frozen-ids after.events) ∙ ap event_ids kept.events ∙ frozen-ids db.events in
    subst (λ l. contains j l ≡ true) (sym ids) there

insert_event-Grows :
    (call : Call) (db : Database) (uuid : String) (stamp : ℕ) (evt : Event)
    → Grows db (insert_event call db uuid stamp evt).0
unfolding insert_event
insert_event-Grows call db uuid stamp evt =
    execute-keeps (Grows db) call db _ (λ id there. there)
      (if_induction (λ (r : Database × Result Event). Grows db r.0)
        (contains (if evt.id == "" then uuid else evt.id) (event_ids db.events)) _ _
        (λ _ id there. there)
        λ _.
          if_induction (λ (r : Database × Result Event). Grows db r.0)
            (contains evt.device_id db.devices) _ _
            (λ _ id there.
              contains-cons (if evt.id == "" then uuid else evt.id) id (event_ids db.events) there)
            (λ _ id there. there))

-- What InsertEvent returns stands in the table.
pub insert_event-In :
    (call : Call) (db : Database) (uuid : String) (stamp : ℕ) (evt e : Event)
    → (insert_event call db uuid stamp evt).1 ≡ ok e
    → In e (insert_event call db uuid stamp evt).0.events
unfolding insert_event
insert_event-In call db uuid stamp evt e h = elim (Option-cases call.fault) [
  | inr (text, down) ↦ cc (rw down at h)
  | inl up ↦
      elim (Bool-cases (contains (if evt.id == "" then uuid else evt.id) (event_ids db.events))) [
        | inl taken ↦ cc (rw (up, taken) at h)
        | inr new ↦ elim (Bool-cases (contains evt.device_id db.devices)) [
          | inl known ↦ rw (up, new, known) (inl (sym (ok_injective (rw (up, new, known) at h))))
          | inr unknown ↦ cc (rw (up, new, unknown) at h)
        ]
      ]
]

-- No statement of the repository takes an event away.
pub Write-Grows : (db db' : Database) → Write db db' → Grows db db'
unfolding upsert_device save_refresh_token revoke_refresh_token upsert_employee
    set_employee_face_enrolled
Write-Grows db db' (put_device call d) =
    same_events-Grows db (upsert_device call db d).0 (ground arith)
Write-Grows db db' (put_token call d token t) =
    same_events-Grows db (save_refresh_token call db d token t).0 (ground arith)
Write-Grows db db' (revoke_token call token) =
    same_events-Grows db (revoke_refresh_token call db token).0 (ground arith)
Write-Grows db db' (put_event call uuid stamp evt) = insert_event-Grows call db uuid stamp evt
Write-Grows db db' (put_status call id status score) = status-Grows call db id status score
Write-Grows db db' (put_employee call uuid id name) =
    same_events-Grows db (upsert_employee call db uuid id name).0 (ground arith)
Write-Grows db db' (put_face call stamp id enrolled) =
    same_events-Grows db (set_employee_face_enrolled call db stamp id enrolled).0 (ground arith)
