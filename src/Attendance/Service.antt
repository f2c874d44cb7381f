-- ===== src/Attendance/Service.antt =====
-- internal/attendance/service.go.
use go_attend.Common.{
  ℕ, String, Option, none, some, if◌then◌else◌, ◌==◌, ◌||◌, Result, Done, ok, err,
}
use go_attend.Common.Int.{ℤ, pos, leb_ℤ}
use go_attend.Attendance.Tables.{Event, Database, Call}
use go_attend.Attendance.Events.{upsert_device, recent_event, insert_event}

-- The repository stands for the database that each operation is given.
pub record Service : Type 0 where
  pub dedup_window : ℤ

abbrev pub five_minutes : ℕ
five_minutes = 300000000000

unfoldable pub new_service : ℤ → Service
new_service dedup_window = record {
  dedup_window = if leb_ℤ dedup_window (pos 0) then pos five_minutes else dedup_window;
}

unfoldable pub register_device : Call → Database → String → Database × Done
unfolding upsert_device
register_device call db device_id =
    if device_id == "" then (db, err "device id required") else upsert_device call db device_id

-- What the surroundings give to one check-in: the call of RecentEvent, time.Now, the call of
-- InsertEvent and uuid.NewString.
pub record Attempt : Type 0 where
  pub asked : Call
  pub stamp : ℕ
  pub stored : Call
  pub uuid : String

abbrev pub new_event : Attempt → String → String → String → String → Event
new_event a user_id device_id location image_url = record {
  id = "";
  user_id = user_id;
  device_id = device_id;
  when = a.stamp;
  location = location;
  image_url = image_url;
  status = "pending";
  match_score = none;
  created_at = 0;
}

-- What CheckIn does with the answer of RecentEvent.
unfoldable pub after_recent :
    Attempt → Database → Event → Result (Option Event) → Database × Result Event
after_recent a db evt (err e) = (db, err e)
after_recent a db evt (ok (some recent)) = (db, ok recent)
after_recent a db evt (ok none) = insert_event a.stored db a.uuid a.stamp evt

-- CheckIn in its two statements, which have no transaction: `seen` are the tables that RecentEvent
-- reads, and `db` those that InsertEvent writes.
unfoldable pub check_in_between :
    Service
    → Attempt
    → Database
    → Database
    → String
    → String
    → String
    → String
    → Database × Result Event
unfolding after_recent recent_event insert_event
check_in_between s a seen db user_id device_id location image_url =
    if user_id == "" || device_id == ""
    then (db, err "user and device required")
    else (after_recent a db (new_event a user_id device_id location image_url)
        (recent_event a.asked seen user_id device_id s.dedup_window))

-- CheckIn where no other request comes between the two statements.
unfoldable pub check_in :
    Service → Attempt → Database → String → String → String → String → Database × Result Event
unfolding check_in_between
check_in s a db user_id device_id location image_url =
    check_in_between s a db db user_id device_id location image_url
