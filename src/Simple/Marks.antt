-- ===== src/Simple/Marks.antt =====
-- newGoAttend/backend/internal/store/store.go: how MarkAttendance ends.
use go_attend.Common.{
  ℕ, String, ◌≡◌, false, Bool-cases, not, ◌&&◌, inl, inr, Option-cases, ◌∷◌, Result, ok, err,
}
use go_attend.Common.Sql.{Call, contains}
use go_attend.Simple.Store.{
  AttendanceRecord, Store, ids, row_ids, new_record, row_of, mark_attendance,
}

-- MarkAttendance adds the row of its record, or changes nothing.
pub data MarkOutcome (s : Store) (rec : AttendanceRecord)
    : Store × Result AttendanceRecord → Type 0 where
  marked_row :
      contains rec.id (row_ids s.attendance) ≡ false
      → MarkOutcome s rec (record s { attendance = row_of rec ∷ s.attendance }, ok rec)
  refused : (text : String) → MarkOutcome s rec (s, err text)

pub mark_attendance-Outcome :
    (call : Call) (s : Store) (uuid : String) (now : ℕ) (id : String)
    → MarkOutcome s (new_record uuid now id) (mark_attendance call s uuid now id)
unfolding mark_attendance
mark_attendance-Outcome call s uuid now id = elim (Option-cases call.fault) [
  | inr (text, e) ↦ rw e (refused text)
  | inl e ↦ rw e (elim (Bool-cases (contains uuid (row_ids s.attendance))) [
    | inl a ↦ rw a (refused _)
    | inr a ↦ elim (Bool-cases (s.foreign_keys && not (contains id (ids s.students)))) [
      | inl b ↦ rw (a, b) (refused _)
      | inr b ↦ rw (a, b) (marked_row a)
    ]
  ])
]
