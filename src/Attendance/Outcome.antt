-- ===== src/Attendance/Outcome.antt =====
-- internal/attendance/service.go: the ways in which CheckIn ends.
use mathlib.Core.List.{map}
use go_attend.Common.{
  ℕ, String, ◌≡◌, ◌∙◌, inl, inr, Option, none, some, ◌∷◌, if◌then◌else◌, arith, true, false,
  Bool-cases, Option-cases, Result, err, ok, ◌==◌, ◌||◌, Result-cases, nat_eq,
}
use go_attend.Attendance.Tables.{Event, Database, contains}
use go_attend.Attendance.Events.{recent_event, insert_event}
use go_attend.Attendance.Service.{Service, Attempt, new_event, after_recent, check_in}

-- The row that CheckIn inserts.
abbrev pub stored_event : Attempt → String → String → String → String → Event
stored_event a user_id device_id location image_url = record {
  id = a.uuid;
  user_id = user_id;
  device_id = device_id;
  when = a.stamp;
  location = location;
  image_url = image_url;
  status = "pending";
  match_score = none;
  created_at = a.stored.now;
}

pub same_stamp : (stamp : ℕ) → (if nat_eq stamp 0 then stamp else stamp) ≡ stamp
same_stamp stamp = ground arith

module _ (s : Service) (a : Attempt) (db : Database)
    (user_id device_id location image_url : String) where
  abbrev row : Event
  row = stored_event a user_id device_id location image_url

  pub data Outcome : Type 0 where
    rejected :
        (text : String)
        → check_in s a db user_id device_id location image_url ≡ (db, err text)
        → Outcome
    known :
        (e : Event)
        → recent_event a.asked db user_id device_id s.dedup_window ≡ ok (some e)
        → check_in s a db user_id device_id location image_url ≡ (db, ok e)
        → Outcome
    stored :
        recent_event a.asked db user_id device_id s.dedup_window ≡ ok none
        → contains device_id db.devices ≡ true
        → contains a.uuid (map (λ e. e.id) db.events) ≡ false
        → check_in s a db user_id device_id location image_url
          ≡ (record db { events = row ∷ db.events }, ok row)
        → Outcome

  data Inserted : Type 0 where
    refused :
        (text : String)
        → insert_event a.stored db a.uuid a.stamp (new_event a user_id device_id location image_url)
          ≡ (db, err text)
        → Inserted
    added :
        contains device_id db.devices ≡ true
        → contains a.uuid (map (λ e. e.id) db.events) ≡ false
        → insert_event a.stored db a.uuid a.stamp (new_event a user_id device_id location image_url)
          ≡ (record db { events = row ∷ db.events }, ok row)
        → Inserted

  insert : Inserted
  unfolding insert_event
  insert = elim (Option-cases a.stored.fault) [
    | inr (text, e) ↦ refused text (rw e)
    | inl e ↦ elim (Bool-cases (contains a.uuid (map (λ e. e.id) db.events))) [
      | inl taken ↦ refused "duplicate key value" (rw (e, taken))
      | inr fresh ↦ elim (Bool-cases (contains device_id db.devices)) [
        | inl found ↦ added found fresh (rw (e, fresh, found, same_stamp a.stamp))
        | inr missing ↦ refused "violates foreign key constraint" (rw (e, fresh, missing))
      ]
    ]
  ]

  abbrev recent : Result (Option Event)
  recent = recent_event a.asked db user_id device_id s.dedup_window

  abbrev answered : Database × Result Event
  answered = after_recent a db (new_event a user_id device_id location image_url) recent

  pub named :
      (user_id == "" || device_id == "") ≡ false
      → check_in s a db user_id device_id location image_url ≡ answered
  unfolding check_in
  named e = rw e

  pub unnamed :
      (user_id == "" || device_id == "") ≡ true
      → check_in s a db user_id device_id location image_url ≡ (db, err "user and device required")
  unfolding check_in
  unnamed e = rw e

  pub check_in-Outcome : Outcome
  unfolding after_recent
  check_in-Outcome = elim (Bool-cases (user_id == "" || device_id == "")) [
    | inl e ↦ rejected "user and device required" (unnamed e)
    | inr e ↦ elim (Result-cases recent) [
      | inr (text, r) ↦ rejected text (named e ∙ rw (r, after_recent))
      | inl (some x, r) ↦ known x r (named e ∙ rw (r, after_recent))
      | inl (none, r) ↦ elim insert [
        | refused text i ↦ rejected text (named e ∙ rw (r, after_recent) i)
        | added found fresh i ↦ stored r found fresh (named e ∙ rw (r, after_recent) i)
      ]
    ]
  ]
