-- ===== src/Attendance/Registration.antt =====
-- internal/attendance/service.go: what RegisterDevice makes possible.
use mathlib.Core.List.{head?}
use go_attend.Common.{
  ℕ, String, ◌≡◌, refl, ap, ◌∙◌, true, false, inl, inr, none, ◌∷◌, ◌==◌, eq_iff, eq_refl, Result,
  ok, err, arith, filter, Option-cases, In, ◌⊎◌,
}
use go_attend.Attendance.Tables.{Event, Database, Call, contains, order_desc}
use go_attend.Attendance.Outcome.{
  stored_event, same_stamp, rejected, known, stored, check_in-Outcome,
}
use go_attend.Attendance.Spacing.{recent_some}
use go_attend.Common.Int.{ℤ}
use go_attend.Attendance.Events.{is_recent}
use go_attend.Attendance.Service.{Service, Attempt, after_recent, register_device, check_in}
use go_attend.Attendance.Keys.{event_ids}

-- The device is listed after a registration that succeeds, and the events are as before.
pub registered :
    (call : Call) (db : Database) (device_id : String)
    → (register_device call db device_id).1 ≡ ok tt
    → (contains device_id (register_device call db device_id).0.devices ≡ true)
      × ((register_device call db device_id).0.events ≡ db.events)
      × ((device_id == "") ≡ false)
unfolding register_device
registered call db device_id h = ground (arith, eq_refl device_id)

-- A registration that fails changes nothing.
pub register_device-error :
    (call : Call) (db : Database) (device_id text : String)
    → (register_device call db device_id).1 ≡ err text
    → (register_device call db device_id).0 ≡ db
unfolding register_device
register_device-error call db device_id text h = ground arith

pub check_in-ok :
    (s : Service) (a : Attempt) (db : Database) (user_id device_id location image_url : String)
    → a.asked.fault ≡ none
    → a.stored.fault ≡ none
    → (user_id == "") ≡ false
    → (device_id == "") ≡ false
    → contains device_id db.devices ≡ true
    → contains a.uuid (event_ids db.events) ≡ false
    → (e : Event) × ((check_in s a db user_id device_id location image_url).1 ≡ ok e)
unfolding check_in
check_in-ok s a db user_id device_id location image_url up up' user device listed fresh =
    let rows =
      order_desc (filter (is_recent a.asked.now s.dedup_window user_id device_id) db.events) in
    elim (Option-cases (head? rows)) [
      | inr (e, first) ↦ (e, rw (user, device, up, first, after_recent) refl)
      | inl empty ↦ (
        stored_event a user_id device_id location image_url,
        rw (user, device, up, empty, after_recent)
            (rw (up', fresh, listed) (rw (same_stamp a.stamp) refl)),
      )
    ]

-- A device that has registered can check in at once, for any user: the check-in succeeds if the
-- database answers, the user has a name and the new id is not in use.
pub register_device-check_in :
    (call : Call) (s : Service) (a : Attempt) (db : Database)
    (user_id device_id location image_url : String)
    → (register_device call db device_id).1 ≡ ok tt
    → a.asked.fault ≡ none
    → a.stored.fault ≡ none
    → (user_id == "") ≡ false
    → contains a.uuid (event_ids db.events) ≡ false
    → (e : Event) × ((check_in s a
          (register_device call db device_id).0
          user_id
          device_id
          location
          image_url).1
        ≡ ok e)
register_device-check_in call s a db user_id device_id location image_url done up up' user fresh =
    let (listed, same, device) = registered call db device_id done in
    check_in-ok s a _ user_id device_id location image_url up up' user device listed
      (ap (λ l. contains a.uuid (event_ids l)) same ∙ fresh)

-- What CheckIn says of the tables it leaves.
abbrev pub IsTruthful : Database → String → String → Database → Result Event → Type 0
IsTruthful db user_id device_id db' (err text) = db' ≡ db
IsTruthful db user_id device_id db' (ok e) =
    In e db'.events
    × (e.user_id ≡ user_id)
    × (e.device_id ≡ device_id)
    × ((db' ≡ db) ⊎ (db'.events ≡ e ∷ db.events))

recent-names :
    (now : ℕ) (window : ℤ) (user_id device_id : String) (e : Event)
    → is_recent now window user_id device_id e ≡ true
    → (e.user_id ≡ user_id) × (e.device_id ≡ device_id)
recent-names now window user_id device_id e h =
    ground (arith, eq_iff e.user_id user_id, eq_iff e.device_id device_id)

-- A check-in that fails changes nothing. One that succeeds returns an event of the user on the device
-- that stands in the table, where it was before or is the only new row.
pub check_in-IsTruthful :
    (s : Service) (a : Attempt) (db : Database) (user_id device_id location image_url : String)
    → IsTruthful db user_id device_id
        (check_in s a db user_id device_id location image_url).0
        (check_in s a db user_id device_id location image_url).1
check_in-IsTruthful s a db user_id device_id location image_url =
    elim (check_in-Outcome s a db user_id device_id location image_url) [
      | rejected text eq ↦ rw eq refl
      | known e r eq ↦
          let (found, recent) = recent_some a.asked db user_id device_id s.dedup_window e r in
          let (user, device) = recent-names a.asked.now s.dedup_window user_id device_id e recent in
          rw eq (found, user, device, inl refl)
      | stored r found fresh eq ↦ rw eq (inl refl, refl, refl, inr refl)
    ]
