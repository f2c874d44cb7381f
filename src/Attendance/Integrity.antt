-- ===== src/Attendance/Integrity.antt =====
-- migrations/*.up.sql: the keys and references of the tables, which every statement of
-- internal/attendance/repo.go keeps.
use go_attend.Common.{
  ℕ, String, ◌≡◌, sym, Bool, true, Option, none, some, List, if◌then◌else◌, if_induction, subst,
  ◌==◌, Result, All, arith,
}
use go_attend.Attendance.Tables.{
  Event, RefreshToken, EmployeeRow, Database, Call, contains, execute-keeps,
}
use go_attend.Attendance.Events.{
  upsert_device, save_refresh_token, revoke_refresh_token, insert_event, update_event_status,
  revoke, with_status,
}
use go_attend.Attendance.Employees.{
  upsert_employee, set_employee_face_enrolled, employee_ids, with_name, with_face,
}
use go_attend.Attendance.Keys.{IsDistinct, event_ids, tokens, All-contains_cons, map_key, map_refs}

pub record IsConsistent (db : Database) : Type 0 where
  pub device_keys : IsDistinct db.devices
  pub event_keys : IsDistinct (event_ids db.events)
  pub token_keys : IsDistinct (tokens db.refresh_tokens)
  pub employee_keys : IsDistinct (employee_ids db.employees)
  pub event_devices : All (λ e. contains e.device_id db.devices ≡ true) db.events
  pub token_devices : All (λ r. contains r.device_id db.devices ≡ true) db.refresh_tokens

-- The writes of the repository.
pub data Write (db : Database) : Database → Type 0 where
  put_device : (call : Call) (device_id : String) → Write db (upsert_device call db device_id).0
  put_token :
      (call : Call) (device_id token : String) (expires_at : ℕ)
      → Write db (save_refresh_token call db device_id token expires_at).0
  revoke_token : (call : Call) (token : String) → Write db (revoke_refresh_token call db token).0
  put_event :
      (call : Call) (uuid : String) (stamp : ℕ) (evt : Event)
      → Write db (insert_event call db uuid stamp evt).0
  put_status :
      (call : Call) (id status : String) (score : Option ℕ)
      → Write db (update_event_status call db id status score).0
  put_employee :
      (call : Call) (uuid employee_id : String) (name : Option String)
      → Write db (upsert_employee call db uuid employee_id name).0
  put_face :
      (call : Call) (stamp : ℕ) (employee_id : String) (enrolled : Bool)
      → Write db (set_employee_face_enrolled call db stamp employee_id enrolled).0

abbrev Keeps : {A : Type 0} → Database × Result A → Type 0
Keeps r = IsConsistent r.0

module _ (call : Call) (db : Database) (h : IsConsistent db) where
  upsert_device-IsConsistent :
      (device_id : String) → IsConsistent (upsert_device call db device_id).0
  unfolding upsert_device
  upsert_device-IsConsistent d =
      if_induction Keeps (d == "") _ _ (λ _. h)
        λ _. execute-keeps IsConsistent call db _ h (
          if_induction Keeps (contains d db.devices) _ _ (λ _. h)
            λ new. record {
              device_keys = (new, h.device_keys);
              event_keys = h.event_keys;
              token_keys = h.token_keys;
              employee_keys = h.employee_keys;
              event_devices =
                  All-contains_cons (λ (e : Event). e.device_id) d db.devices db.events
                    h.event_devices;
              token_devices =
                  All-contains_cons (λ (r : RefreshToken). r.device_id) d db.devices
                    db.refresh_tokens h.token_devices;
            })

  save_refresh_token-IsConsistent :
      (device_id token : String) (expires_at : ℕ)
      → IsConsistent (save_refresh_token call db device_id token expires_at).0
  unfolding save_refresh_token
  save_refresh_token-IsConsistent d token t = execute-keeps IsConsistent call db _ h (
      if_induction Keeps (contains token (tokens db.refresh_tokens)) _ _ (λ _. h)
        λ new.
          if_induction Keeps (contains d db.devices) _ _
            (λ known. record {
              device_keys = h.device_keys;
              event_keys = h.event_keys;
              token_keys = (new, h.token_keys);
              employee_keys = h.employee_keys;
              event_devices = h.event_devices;
              token_devices = (known, h.token_devices);
            })
            (λ _. h))

  revoke_refresh_token-IsConsistent :
      (token : String) → IsConsistent (revoke_refresh_token call db token).0
  unfolding revoke_refresh_token
  revoke_refresh_token-IsConsistent token = execute-keeps IsConsistent call db _ h (record {
    device_keys = h.device_keys;
    event_keys = h.event_keys;
    token_keys =
        subst IsDistinct
          (sym (
            map_key (λ (r : RefreshToken). r.token) (revoke token) (λ r. ground arith)
              db.refresh_tokens))
          h.token_keys;
    employee_keys = h.employee_keys;
    event_devices = h.event_devices;
    token_devices =
        map_refs (λ (r : RefreshToken). r.device_id) (revoke token) db.devices (λ r. ground arith)
          db.refresh_tokens h.token_devices;
  })

  insert_event-IsConsistent :
      (uuid : String) (stamp : ℕ) (evt : Event)
      → IsConsistent (insert_event call db uuid stamp evt).0
  unfolding insert_event
  insert_event-IsConsistent uuid stamp evt = execute-keeps IsConsistent call db _ h (
      if_induction Keeps (contains (if evt.id == "" then uuid else evt.id) (event_ids db.events)) _
        _ (λ _. h)
        λ new.
          if_induction Keeps (contains evt.device_id db.devices) _ _
            (λ known. record {
              device_keys = h.device_keys;
              event_keys = (new, h.event_keys);
              token_keys = h.token_keys;
              employee_keys = h.employee_keys;
              event_devices = (known, h.event_devices);
              token_devices = h.token_devices;
            })
            (λ _. h))

  update_event_status-IsConsistent :
      (id status : String) (score : Option ℕ)
      → IsConsistent (update_event_status call db id status score).0
  unfolding update_event_status
  update_event_status-IsConsistent id status score =
      execute-keeps IsConsistent call db _ h (record {
        device_keys = h.device_keys;
        event_keys =
            subst IsDistinct
              (sym (
                map_key (λ (e : Event). e.id) (with_status id status score) (λ e. ground arith)
                  db.events))
              h.event_keys;
        token_keys = h.token_keys;
        employee_keys = h.employee_keys;
        event_devices =
            map_refs (λ (e : Event). e.device_id) (with_status id status score) db.devices
              (λ e. ground arith) db.events h.event_devices;
        token_devices = h.token_devices;
      })

  with_employees :
      (rows : List EmployeeRow)
      → IsDistinct (employee_ids rows)
      → IsConsistent (record db { employees = rows })
  with_employees rows keys = record {
    device_keys = h.device_keys;
    event_keys = h.event_keys;
    token_keys = h.token_keys;
    employee_keys = keys;
    event_devices = h.event_devices;
    token_devices = h.token_devices;
  }

  upsert_employee-IsConsistent :
      (uuid employee_id : String) (name : Option String)
      → IsConsistent (upsert_employee call db uuid employee_id name).0
  unfolding upsert_employee
  upsert_employee-IsConsistent uuid id name = execute-keeps IsConsistent call db _ h (
      if_induction Keeps (contains id (employee_ids db.employees)) _ _
        (λ _. with_employees _ (
          subst IsDistinct
            (sym (
              map_key (λ (r : EmployeeRow). r.employee.employee_id) (with_name call.now id name)
                (λ r. ground arith) db.employees))
            h.employee_keys))
        (λ new. with_employees _ (new, h.employee_keys)))

  set_employee_face_enrolled-IsConsistent :
      (stamp : ℕ) (employee_id : String) (enrolled : Bool)
      → IsConsistent (set_employee_face_enrolled call db stamp employee_id enrolled).0
  unfolding set_employee_face_enrolled
  set_employee_face_enrolled-IsConsistent stamp id enrolled =
      let at = if enrolled then some stamp else none in
      execute-keeps IsConsistent call db _ h (
        with_employees _ (
          subst IsDistinct
            (sym (
              map_key (λ (r : EmployeeRow). r.employee.employee_id)
                (with_face call.now id enrolled at) (λ r. ground arith) db.employees))
            h.employee_keys))

-- Every write keeps the keys of the four tables distinct and the devices of the events and of the
-- tokens registered, whether its statement is executed, refused or lost.
pub Write-IsConsistent : (db db' : Database) → Write db db' → IsConsistent db → IsConsistent db'
Write-IsConsistent db db' (put_device call d) h = upsert_device-IsConsistent call db h d
Write-IsConsistent db db' (put_token call d token t) h =
    save_refresh_token-IsConsistent call db h d token t
Write-IsConsistent db db' (revoke_token call token) h =
    revoke_refresh_token-IsConsistent call db h token
Write-IsConsistent db db' (put_event call uuid stamp evt) h =
    insert_event-IsConsistent call db h uuid stamp evt
Write-IsConsistent db db' (put_status call id status score) h =
    update_event_status-IsConsistent call db h id status score
Write-IsConsistent db db' (put_employee call uuid id name) h =
    upsert_employee-IsConsistent call db h uuid id name
Write-IsConsistent db db' (put_face call stamp id enrolled) h =
    set_employee_face_enrolled-IsConsistent call db h stamp id enrolled
