-- ===== src/Attendance/Keys.antt =====
-- migrations/*.up.sql: the keys of the tables of internal/attendance.
use go_attend.Common.{List, String, map}
use go_attend.Attendance.Tables.{Event, RefreshToken}
pub use go_attend.Common.Sql.{IsDistinct, contains-cons, All-contains_cons, map_key, map_refs}

abbrev pub event_ids : List Event → List String
event_ids = map (λ e. e.id)

abbrev pub tokens : List RefreshToken → List String
tokens = map (λ r. r.token)
