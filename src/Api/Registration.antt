-- ===== src/Api/Registration.antt =====
-- cmd/api/main.go: what a registration does to the tables.
use go_attend.Common.{ℕ, String, ◌≡◌, refl, ◌∙◌, Result, ok, err, Done, ◌==◌, if_induction, arith}
use go_attend.Attendance.Tables.{Database, Call}
use go_attend.Attendance.Events.{save_refresh_token, upsert_device}
use go_attend.Attendance.Service.{register_device}
use go_attend.Auth.{TokenPair, Clock, Jwt}
use go_attend.Api.{Config, Registering, after_issue, after_register, post_register}

-- What a registration leaves alone.
abbrev pub SameRows : Database → Database → Type 0
SameRows db db' = (db'.events ≡ db.events) × (db'.employees ≡ db.employees)

upsert_device-SameRows :
    (call : Call) (db : Database) (device_id : String)
    → SameRows db (upsert_device call db device_id).0
unfolding upsert_device
upsert_device-SameRows call db device_id = ground arith

save_refresh_token-SameRows :
    (call : Call) (db : Database) (device_id token : String) (expires_at : ℕ)
    → SameRows db (save_refresh_token call db device_id token expires_at).0
unfolding save_refresh_token
save_refresh_token-SameRows call db device_id token expires_at = ground arith

-- What holds before a registration and is kept by its two statements holds after it.
module _ (P : Database → Type 0)
    (device_kept : (call : Call) (db : Database) (device_id : String)
      → P db
      → P (upsert_device call db device_id).0)
    (token_kept : (call : Call) (db : Database) (device_id token : String) (expires_at : ℕ)
      → P db
      → P (save_refresh_token call db device_id token expires_at).0) where
  after_issue-keeps :
      (calls : Registering) (db : Database) (device_id : String) (issued : Result TokenPair)
      → P db
      → P (after_issue calls db device_id issued).0
  unfolding after_issue
  after_issue-keeps calls db device_id (err e) h = h
  after_issue-keeps calls db device_id (ok pair) h =
      token_kept calls.save db device_id pair.refresh_token pair.refresh_exp h

  after_register-keeps :
      (jwt : Jwt) (cfg : Config) (clock : Clock) (calls : Registering) (device_id : String)
      (r : Database × Done)
      → P r.0
      → P (after_register jwt cfg clock calls device_id r).0
  unfolding after_register
  after_register-keeps jwt cfg clock calls device_id (db, err e) h = h
  after_register-keeps jwt cfg clock calls device_id (db, ok _) h =
      after_issue-keeps calls db device_id _ h

  pub post_register-keeps :
      (jwt : Jwt) (cfg : Config) (clock : Clock) (calls : Registering) (db : Database)
      (bound : Result String)
      → P db
      → P (post_register jwt cfg clock calls db bound).0
  unfolding post_register register_device
  post_register-keeps jwt cfg clock calls db (err e) h = h
  post_register-keeps jwt cfg clock calls db (ok device_id) h =
      after_register-keeps jwt cfg clock calls device_id _ (
        if_induction (λ (r : Database × Done). P r.0) (device_id == "") _ _ (λ _. h)
          λ _. device_kept calls.upsert db device_id h)

pub post_register-SameRows :
    (jwt : Jwt) (cfg : Config) (clock : Clock) (calls : Registering) (db : Database)
    (bound : Result String)
    → SameRows db (post_register jwt cfg clock calls db bound).0
post_register-SameRows jwt cfg clock calls db bound =
    post_register-keeps (SameRows db)
      (λ call db' device_id h.
        let r = upsert_device-SameRows call db' device_id in (r.0 ∙ h.0, r.1 ∙ h.1))
      (λ call db' device_id token expires_at h.
        let r = save_refresh_token-SameRows call db' device_id token expires_at in
        (r.0 ∙ h.0, r.1 ∙ h.1))
      jwt cfg clock calls db bound (refl, refl)
