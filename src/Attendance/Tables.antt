-- ===== src/Attendance/Tables.antt =====
-- migrations/0001_init.up.sql, migrations/0002_employees.up.sql and the row types of
-- internal/attendance. A table is the list of its rows, the newest first. A time is a number of
-- nanoseconds, of which 0 stands for the zero time; a float64 is the number of its bits.
use go_attend.Common.{ℕ, String, Bool, Option, List}
use go_attend.Common.Newest.{order_newest}
pub use go_attend.Common.Sql.{Call, execute, query, contains, query-ok, execute-keeps}

pub record Event : Type 0 where
  pub id : String
  pub user_id : String
  pub device_id : String
  pub when : ℕ
  pub location : String
  pub image_url : String
  pub status : String
  pub match_score : Option ℕ
  pub created_at : ℕ

pub record RefreshToken : Type 0 where
  pub device_id : String
  pub token : String
  pub expires_at : ℕ
  pub revoked : Bool

pub record Employee : Type 0 where
  pub id : String
  pub employee_id : String
  pub name : Option String
  pub email : Option String
  pub department : Option String
  pub face_enrolled : Bool
  pub enrolled_at : Option ℕ
  pub created_at : ℕ

-- A row has a column that the program writes and never reads.
pub record EmployeeRow : Type 0 where
  pub employee : Employee
  pub updated_at : ℕ

-- `devices` holds the column device_id.
pub record Database : Type 0 where
  pub devices : List String
  pub events : List Event
  pub refresh_tokens : List RefreshToken
  pub employees : List EmployeeRow

-- ORDER BY occurred_at DESC.
abbrev pub order_desc : List Event → List Event
order_desc = order_newest (λ (e : Event). e.when)
