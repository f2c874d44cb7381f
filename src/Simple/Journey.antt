-- ===== src/Simple/Journey.antt =====
-- newGoAttend/backend/internal/handler/handler.go: a registration and a login by face after it.
use go_attend.Common.{
  String, ◌≡◌, refl, sym, ap, ◌∙◌, subst, Bool, true, false, not, ◌&&◌, inl, inr, none, some, List,
  ◌∷◌, Result, ok, find, eq_refl,
}
use go_attend.Common.Sql.{contains}
use go_attend.Common.Web.{Web}
use go_attend.Simple.Store.{
  Student, Store, ids, row_ids, new_record, is_student, stamped, get_student_by_id, mark_attendance,
}
use go_attend.Simple.Keys.{found_student}
use go_attend.Simple.Clients.{FaceClient, RecognizeResult, Decoders, recognize}
use go_attend.Simple.Handler.{
  Handler, Turn, PhotoPart, RegisterRequest, respond, student, failure, marked, State, new_student,
  after_mark, after_get, after_recognize, recognize_photo, after_file, face_login, register_student,
}
use go_attend.Simple.Registration.{register_student-Ends}

same_student : {a b : Student} → student a ≡ student b → a ≡ b
same_student e = cc

not_created : {a : Student} {text : String} → student a ≡ failure text → ⊥
not_created e = cc

found_first : (st : Student) (sts : List Student) → find (is_student st.id) (st ∷ sts) ≡ some st
found_first st sts = rw (eq_refl st.id) refl

checked : (foreign_keys known : Bool) → known ≡ true → (foreign_keys && not known) ≡ false
checked true known e = rw e refl
checked false known e = refl

module _ (web : Web) (decode : Decoders) (h : Handler) where
  -- What the surroundings give to a login that goes well.
  pub record IsRecognized (s : Store) (w w' : web.World) (turn : Turn) (content filename : String)
      (st : Student) : Type 0 where
    pub face : FaceClient
    pub configured : h.face_client ≡ some face
    pub result : RecognizeResult
    pub recognized : recognize web decode face w content filename ≡ (w', ok result)
    pub matched : result.matched ≡ true
    pub same : result.student_id ≡ st.id
    pub fetched : turn.fetch.fault ≡ none
    pub inserted : turn.insert.fault ≡ none
    pub fresh : contains turn.uuid (row_ids s.attendance) ≡ false

  abbrev pub photo_part : String → String → PhotoPart
  photo_part content filename = record { filename = ok filename; content = ok content }

  login-ok :
      (s : Store) (w w' : web.World) (turn : Turn) (content filename : String) (st : Student)
      → find (is_student st.id) s.students ≡ some st
      → IsRecognized s w w' turn content filename st
      → (face_login web decode h turn (s, w) (photo_part content filename)).1
        ≡ respond 200 (marked st (record (new_record turn.uuid turn.now st.id) { name = st.name }))
  unfolding face_login after_file recognize_photo after_recognize after_get after_mark
      get_student_by_id mark_attendance
  login-ok s w w' turn content filename st known r =
      let references =
        checked s.foreign_keys (contains st.id (ids s.students))
          (found_student st.id s.students st known).1 in
      rw
        (
          r.configured, r.recognized, r.matched, r.same, r.fetched, known, r.inserted, r.fresh,
          references,
        )
        refl

  registered-known :
      (turn : Turn) (state : State web decode) (bound : Result RegisterRequest) (part : PhotoPart)
      (st : Student)
      → (register_student web decode h turn state bound part).1 ≡ respond 201 (student st)
      → find (is_student st.id) (register_student web decode h turn state bound part).0.0.students
        ≡ some st
  registered-known turn state bound part st created =
      elim (register_student-Ends web decode h turn state bound part) [
        | inl reg ↦
            let row = stamped turn.uuid turn.now (new_student reg.req reg.url) in
            let same : row ≡ st = same_student (ap (λ r. r.body) (sym reg.body ∙ created)) in
            subst (λ (s : Store). find (is_student st.id) s.students ≡ some st) (sym reg.stored)
              (subst (λ (y : Student). find (is_student y.id) (row ∷ state.0.students) ≡ some y)
                same (found_first row state.0.students))
        | inr bad ↦ absurd (not_created (ap (λ r. r.body) (sym created ∙ bad.says)))
      ]

  -- A student whose registration was answered by 201 can log in by face: if the face service recognizes
  -- the photo as that student, the database answers and the new id is fresh, the login is answered by
  -- 200 with the student and a record of the attendance.
  pub register_student-face_login :
      (turn turn' : Turn) (state : State web decode) (bound : Result RegisterRequest)
      (part : PhotoPart) (st : Student) (w w' : web.World) (content filename : String)
      → (register_student web decode h turn state bound part).1 ≡ respond 201 (student st)
      → IsRecognized
          (register_student web decode h turn state bound part).0.0
          w
          w'
          turn'
          content
          filename
          st
      → (face_login web decode h turn'
          ((register_student web decode h turn state bound part).0.0, w)
          (photo_part content filename)).1
        ≡ respond 200
            (marked st (record (new_record turn'.uuid turn'.now st.id) { name = st.name }))
  register_student-face_login turn turn' state bound part st w w' content filename created r =
      login-ok (register_student web decode h turn state bound part).0.0 w w' turn' content filename
        st (registered-known turn state bound part st created) r
