-- ===== src/Simple/Login.antt =====
-- newGoAttend/backend/internal/handler/handler.go: how FaceLogin ends.
use go_attend.Common.{
  String, ◌≡◌, refl, sym, subst, Bool, true, false, Bool-cases, not, inl, inr, ◌⊎◌, Option, none,
  some, ◌∷◌, if◌then◌else◌, Result, ok, err, ok_injective, find,
}
use go_attend.Common.Sql.{Call, contains, query-ok}
use go_attend.Common.Web.{Web}
use go_attend.Simple.Store.{
  Student, AttendanceRecord, Store, row_ids, new_record, row_of, is_student, get_student_by_id,
}
use go_attend.Simple.Keys.{found_student}
use go_attend.Simple.Clients.{FaceClient, RecognizeResult, Decoders, recognize}
use go_attend.Simple.Handler.{
  Handler, Turn, PhotoPart, Reply, respond, marked, failure, State, after_mark, after_get,
  after_recognize, recognize_photo, after_file, face_login,
}
use go_attend.Simple.Marks.{MarkOutcome, marked_row, refused, mark_attendance-Outcome}

module _ (web : Web) (decode : Decoders) (h : Handler) (turn : Turn) where
  -- The photo is recognized as one of a student of the table, for whom one row is added, with the
  -- new id, the time and the status "present"; the answer is 200 with the student and the record.
  pub record IsMarked (state state' : State web decode) (part : PhotoPart) (r : Reply)
      : Type 0 where
    pub face : FaceClient
    pub configured : h.face_client ≡ some face
    pub filename : String
    pub content : String
    pub read : (part.filename ≡ ok filename) × (part.content ≡ ok content)
    pub result : RecognizeResult
    pub recognized : recognize web decode face state.1 content filename ≡ (state'.1, ok result)
    pub matched : result.matched ≡ true
    pub st : Student
    pub known : find (is_student st.id) state.0.students ≡ some st
    pub same : st.id ≡ result.student_id
    pub stored : state'.0 ≡ record state.0 {
      attendance = row_of (new_record turn.uuid turn.now st.id) ∷ state.0.attendance;
    }
    pub fresh : contains turn.uuid (row_ids state.0.attendance) ≡ false
    pub body :
        r
        ≡ respond 200 (marked st (record (new_record turn.uuid turn.now st.id) { name = st.name }))

  -- The answer is an error, and the tables are as before.
  pub record IsRefused (state state' : State web decode) (r : Reply) : Type 0 where
    pub text : String
    pub code :
        (r.status ≡ 400)
        ⊎ ((r.status ≡ 401) ⊎ ((r.status ≡ 404) ⊎ ((r.status ≡ 500) ⊎ (r.status ≡ 503))))
    pub says : r ≡ respond r.status (failure text)
    pub untouched : state'.0 ≡ state.0

  abbrev pub Ends : State web decode → PhotoPart → State web decode × Reply → Type 0
  Ends state part (state', r) = IsMarked state state' part r ⊎ IsRefused state state' r

  module _ (s : Store) (w w' : web.World) (face : FaceClient) (content filename : String)
      (configured : h.face_client ≡ some face) (result : RecognizeResult)
      (recognized : recognize web decode face w content filename ≡ (w', ok result))
      (matched : result.matched ≡ true) where
    abbrev whole : PhotoPart
    whole = record { filename = ok filename; content = ok content }

    after_mark-Ends :
        (st : Student) (r : Store × Result AttendanceRecord)
        → find (is_student st.id) s.students ≡ some st
        → st.id ≡ result.student_id
        → MarkOutcome s (new_record turn.uuid turn.now st.id) r
        → Ends (s, w) whole (after_mark web decode w' st r)
    unfolding after_mark
    after_mark-Ends st _ known same (marked_row fresh) = inl (record {
      face = face;
      configured = configured;
      filename = filename;
      content = content;
      read = (refl, refl);
      result = result;
      recognized = recognized;
      matched = matched;
      st = st;
      known = known;
      same = same;
      stored = refl;
      fresh = fresh;
      body = refl;
    })
    after_mark-Ends st _ known same (refused text) = inr (record {
      text = "failed to mark attendance";
      code = inr (inr (inr (inl refl)));
      says = refl;
      untouched = refl;
    })

    after_get-Ends :
        (got : Result (Option Student))
        → ((st : Student)
            → got ≡ ok (some st)
            → (find (is_student st.id) s.students ≡ some st) × (st.id ≡ result.student_id))
        → Ends (s, w) whole (after_get web decode turn (s, w') got)
    unfolding after_get
    after_get-Ends (err text) found = inr (record {
      text = "matched student not found in database";
      code = inr (inr (inl refl));
      says = refl;
      untouched = refl;
    })
    after_get-Ends (ok none) found = inr (record {
      text = "matched student not found in database";
      code = inr (inr (inl refl));
      says = refl;
      untouched = refl;
    })
    after_get-Ends (ok (some st)) found =
        let (known, same) = found st refl in
        after_mark-Ends st _ known same
          (mark_attendance-Outcome turn.insert s turn.uuid turn.now st.id)

  get-found :
      (call : Call) (s : Store) (id : String) (st : Student)
      → get_student_by_id call s id ≡ ok (some st)
      → (find (is_student st.id) s.students ≡ some st) × (st.id ≡ id)
  unfolding get_student_by_id
  get-found call s id st e =
      let found = ok_injective (query-ok call _ e) in
      let (same, _) = found_student id s.students st found in
      (subst (λ j. find (is_student j) s.students ≡ some st) (sym same) found, same)

  module _ (s : Store) (w : web.World) (face : FaceClient) (content filename : String)
      (configured : h.face_client ≡ some face) where
    after_recognize-Ends :
        (answer : web.World × Result RecognizeResult)
        → recognize web decode face w content filename ≡ answer
        → Ends
            (s, w)
            (record { filename = ok filename; content = ok content })
            (after_recognize web decode turn s answer)
    unfolding after_recognize
    after_recognize-Ends (w', err text) sent = inr (record {
      text = "face recognition failed";
      code = inr (inr (inr (inl refl)));
      says = refl;
      untouched = refl;
    })
    after_recognize-Ends (w', ok result) sent = elim (Bool-cases result.matched) [
      | inr e ↦ rw e (
          inr (record {
            text = "face not recognized";
            code = inr (inl refl);
            says = refl;
            untouched = refl;
          }))
      | inl e ↦
          subst
            (λ (b : Bool).
              Ends (s, w) (record { filename = ok filename; content = ok content })
                (if not b
                  then ((s, w'), respond 401 (failure "face not recognized"))
                  else (after_get web decode turn (s, w')
                      (get_student_by_id turn.fetch s result.student_id))))
            (sym e)
            (after_get-Ends s w w' face content filename configured result sent e
              (get_student_by_id turn.fetch s result.student_id)
              (λ st found. get-found turn.fetch s result.student_id st found))
    ]

  recognize_photo-Ends :
      (s : Store) (w : web.World) (content filename : String) (face : Option FaceClient)
      → h.face_client ≡ face
      → Ends
          (s, w)
          (record { filename = ok filename; content = ok content })
          (recognize_photo web decode face turn (s, w) content filename)
  unfolding recognize_photo
  recognize_photo-Ends s w content filename none e = inr (record {
    text = "face service not configured";
    code = inr (inr (inr (inr refl)));
    says = refl;
    untouched = refl;
  })
  recognize_photo-Ends s w content filename (some face) e =
      after_recognize-Ends s w face content filename e
        (recognize web decode face w content filename) refl

  after_file-Ends :
      (state : State web decode) (filename content : Result String)
      → Ends state
          (record { filename = filename; content = content })
          (after_file web decode h turn state filename content)
  unfolding after_file
  after_file-Ends state (err _) content =
      inr
        (record { text = "photo file is required"; code = inl refl; says = refl; untouched = refl })
  after_file-Ends state (ok filename) (err _) = inr (record {
    text = "failed to read photo";
    code = inr (inr (inr (inl refl)));
    says = refl;
    untouched = refl;
  })
  after_file-Ends (s, w) (ok filename) (ok content) =
      recognize_photo-Ends s w content filename h.face_client refl

  -- A login by face ends in one of two ways. Either the photo was recognized as one of a student of
  -- the table, one row is added for that student, with the new id, the time and the status "present",
  -- and the answer is 200 with the student and the record. Or the answer is 400, 401, 404, 500 or 503,
  -- and the tables are as before.
  pub face_login-Ends :
      (state : State web decode) (part : PhotoPart)
      → (let a = face_login web decode h turn state part in
          IsMarked state a.0 part a.1 ⊎ IsRefused state a.0 a.1)
  unfolding face_login
  face_login-Ends state part = after_file-Ends state part.filename part.content
