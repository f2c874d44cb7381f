-- ===== src/Attendance/Events.antt =====
-- internal/attendance/repo.go: devices, refresh tokens and events.
use mathlib.Core.List.{map, head?}
use go_attend.Common.{
  ℕ, ◌+◌, String, Bool, true, false, Option, none, some, ◌∷◌, leb, nat_eq, if◌then◌else◌, ◌==◌,
  ◌&&◌, Result, Done, ok, err, filter, find,
}
use go_attend.Common.Int.{ℤ, pos_part, neg_part}
use go_attend.Attendance.Tables.{
  Event, RefreshToken, Database, Call, execute, query, contains, order_desc,
}

unfoldable pub upsert_device : Call → Database → String → Database × Done
upsert_device call db device_id =
    if device_id == ""
    then (db, err "device id required")
    else (execute call db (
        if contains device_id db.devices
        then (db, ok tt)
        else (record db { devices = device_id ∷ db.devices }, ok tt)))

-- The columns token (UNIQUE) and device_id (REFERENCES devices) can refuse the row.
unfoldable pub save_refresh_token : Call → Database → String → String → ℕ → Database × Done
save_refresh_token call db device_id token expires_at =
    let row : RefreshToken = record {
      device_id = device_id;
      token = token;
      expires_at = expires_at;
      revoked = false;
    } in
    execute call db (
      if contains token (map (λ r. r.token) db.refresh_tokens)
      then (db, err "duplicate key value")
      else (if contains device_id db.devices
          then (record db { refresh_tokens = row ∷ db.refresh_tokens }, ok tt)
          else (db, err "violates foreign key constraint")))

abbrev pub revoke : String → RefreshToken → RefreshToken
revoke token r = if r.token == token then record r { revoked = true } else r

unfoldable pub revoke_refresh_token : Call → Database → String → Database × Done
revoke_refresh_token call db token =
    execute call db (record db { refresh_tokens = map (revoke token) db.refresh_tokens }, ok tt)

-- occurred_at >= NOW() - window, in signed arithmetic.
abbrev pub since : ℕ → ℤ → ℕ → Bool
since now window occurred_at = leb (now + neg_part window) (occurred_at + pos_part window)

abbrev pub is_recent : ℕ → ℤ → String → String → Event → Bool
is_recent now window user_id device_id e =
    e.user_id == user_id && e.device_id == device_id && since now window e.when

-- `none` is the nil pointer that stands for no row.
unfoldable pub recent_event : Call → Database → String → String → ℤ → Result (Option Event)
recent_event call db user_id device_id window =
    query call
      (ok (head? (order_desc (filter (is_recent call.now window user_id device_id) db.events))))

-- The columns id (PRIMARY KEY) and device_id (REFERENCES devices) can refuse the row. `uuid` is what
-- uuid.NewString returns, `stamp` what time.Now does.
unfoldable pub insert_event : Call → Database → String → ℕ → Event → Database × Result Event
insert_event call db uuid stamp evt =
    let row : Event = record evt {
      id = if evt.id == "" then uuid else evt.id;
      when = if nat_eq evt.when 0 then stamp else evt.when;
      status = if evt.status == "" then "pending" else evt.status;
      created_at = call.now;
    } in
    execute call db (
      if contains row.id (map (λ e. e.id) db.events)
      then (db, err "duplicate key value")
      else (if contains row.device_id db.devices
          then (record db { events = row ∷ db.events }, ok row)
          else (db, err "violates foreign key constraint")))

abbrev pub has_id : String → Event → Bool
has_id id e = e.id == id

abbrev pub one_row : Option Event → Result Event
one_row none = err "sql: no rows in result set"
one_row (some e) = ok e

unfoldable pub get_event : Call → Database → String → Result Event
get_event call db id = query call (one_row (find (has_id id) db.events))

-- COALESCE(new, old)
abbrev pub coalesce {ℓ} : {A : Type ℓ} → Option A → Option A → Option A
coalesce none old = old
coalesce (some a) old = some a

abbrev pub with_status : String → String → Option ℕ → Event → Event
with_status id status score e =
    if e.id == id
    then record e { status = status; match_score = coalesce score e.match_score }
    else e

unfoldable pub update_event_status : Call → Database → String → String → Option ℕ → Database × Done
update_event_status call db id status score =
    execute call db (record db { events = map (with_status id status score) db.events }, ok tt)
