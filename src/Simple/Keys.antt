-- ===== src/Simple/Keys.antt =====
-- newGoAttend/backend/internal/store/store.go: the keys of the tables, which every operation keeps.
use go_attend.Common.{
  String, ◌≡◌, refl, sym, subst, Bool, true, false, Bool-cases, inl, inr, some, List, [], ◌∷◌, map,
  ◌==◌, eq_iff, find, All, arith,
}
use go_attend.Common.Sql.{Call, execute-keeps, contains, IsDistinct, All-contains_cons, map_key}
use go_attend.Simple.Store.{
  Student, AttendanceRow, Store, ids, emails, student_ids, row_ids, migrated, is_student,
  with_photo, update_student_photo,
}

-- The keys of both tables are distinct, and every row of attendance is of a student.
pub record IsSound (s : Store) : Type 0 where
  pub id_keys : IsDistinct (ids s.students)
  pub email_keys : IsDistinct (emails s.students)
  pub student_id_keys : IsDistinct (student_ids s.students)
  pub row_keys : IsDistinct (row_ids s.attendance)
  pub rows : All (λ (r : AttendanceRow). contains r.student_id (ids s.students) ≡ true) s.attendance

pub migrated-IsSound : (foreign_keys : Bool) → IsSound (migrated foreign_keys)
migrated-IsSound foreign_keys = record {
  id_keys = tt;
  email_keys = tt;
  student_id_keys = tt;
  row_keys = tt;
  rows = tt;
}

some_injective : {A : Type 0} {a b : A} → some a ≡ some b → a ≡ b
some_injective e = cc

-- A student that is found has the id that was asked for, and stands in the table.
pub found_student :
    (id : String) (sts : List Student) (st : Student)
    → find (is_student id) sts ≡ some st
    → (st.id ≡ id) × (contains id (ids sts) ≡ true)
found_student id [] st h = cc
found_student id (x ∷ sts) st h = elim (Bool-cases (x.id == id)) [
  | inl here ↦
      let same = some_injective (rw here at h) in
      (subst (λ (y : Student). y.id ≡ id) same ((eq_iff x.id id).0 here), rw here refl)
  | inr later ↦
      let (named, listed) = found_student id sts st (rw later at h) in (named, rw later listed)
]

module _ (s : Store) (h : IsSound s) where
  -- A row whose keys are free can be added.
  pub IsSound-student :
      (st : Student)
      → contains st.id (ids s.students) ≡ false
      → contains st.email (emails s.students) ≡ false
      → contains st.student_id (student_ids s.students) ≡ false
      → IsSound (record s { students = st ∷ s.students })
  IsSound-student st new_id new_email new_student_id = record {
    id_keys = (new_id, h.id_keys);
    email_keys = (new_email, h.email_keys);
    student_id_keys = (new_student_id, h.student_id_keys);
    row_keys = h.row_keys;
    rows =
        All-contains_cons (λ (r : AttendanceRow). r.student_id) st.id (ids s.students) s.attendance
          h.rows;
  }

  pub IsSound-row :
      (r : AttendanceRow)
      → contains r.id (row_ids s.attendance) ≡ false
      → contains r.student_id (ids s.students) ≡ true
      → IsSound (record s { attendance = r ∷ s.attendance })
  IsSound-row r fresh listed = record {
    id_keys = h.id_keys;
    email_keys = h.email_keys;
    student_id_keys = h.student_id_keys;
    row_keys = (fresh, h.row_keys);
    rows = (listed, h.rows);
  }

  pub update_student_photo-IsSound :
      (call : Call) (id photo_url : String) → IsSound (update_student_photo call s id photo_url).0
  unfolding update_student_photo
  update_student_photo-IsSound call id photo_url =
      let kept : (key : Student → String)
          → ((st : Student) → key (with_photo id photo_url st) ≡ key st)
          → map key (map (with_photo id photo_url) s.students) ≡ map key s.students =
        λ key same. map_key key (with_photo id photo_url) same s.students in
      execute-keeps IsSound call s _ h (record {
        id_keys = subst IsDistinct (sym (kept (λ x. x.id) (λ st. ground arith))) h.id_keys;
        email_keys = subst IsDistinct (sym (kept (λ x. x.email) (λ st. ground arith))) h.email_keys;
        student_id_keys =
            subst IsDistinct (sym (kept (λ x. x.student_id) (λ st. ground arith)))
              h.student_id_keys;
        row_keys = h.row_keys;
        rows =
            subst
              (λ (l : List String).
                All (λ (r : AttendanceRow). contains r.student_id l ≡ true) s.attendance)
              (sym (kept (λ x. x.id) (λ st. ground arith))) h.rows;
      })
