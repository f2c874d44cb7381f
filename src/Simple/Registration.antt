-- ===== src/Simple/Registration.antt =====
-- newGoAttend/backend/internal/handler/handler.go: how RegisterStudent ends.
use go_attend.Common.{
  ℕ, String, ◌≡◌, refl, false, Bool-cases, inl, inr, ◌⊎◌, Option, none, some, Option-cases, ◌∷◌,
  Result, Done, ok, err,
}
use go_attend.Common.Sql.{Call, contains}
use go_attend.Common.Web.{Web}
use go_attend.Simple.Store.{Student, Store, ids, emails, student_ids, stamped, create_student}
use go_attend.Simple.Clients.{CloudClient, UploadResult, Decoders, upload}
use go_attend.Simple.Handler.{
  Handler, Turn, RegisterRequest, PhotoPart, Reply, respond, student, failure, new_student, State,
  after_create, save_student, after_upload, upload_photo, after_bind, register_student,
}

-- CreateStudent adds the stamped row if no key stands in the table, or changes nothing.
pub data CreateOutcome (s : Store) (row : Student) : Store × Done → Type 0 where
  created :
      contains row.id (ids s.students) ≡ false
      → contains row.email (emails s.students) ≡ false
      → contains row.student_id (student_ids s.students) ≡ false
      → CreateOutcome s row (record s { students = row ∷ s.students }, ok tt)
  refused : (text : String) → CreateOutcome s row (s, err text)

create_student-Outcome :
    (call : Call) (s : Store) (uuid : String) (now : ℕ) (st : Student)
    → CreateOutcome s (stamped uuid now st) (create_student call s uuid now st)
unfolding create_student
create_student-Outcome call s uuid now st = elim (Option-cases call.fault) [
  | inr (text, e) ↦ rw e (refused text)
  | inl e ↦ rw e (elim (Bool-cases (contains uuid (ids s.students))) [
    | inl a ↦ rw a (refused _)
    | inr a ↦ elim (Bool-cases (contains st.email (emails s.students))) [
      | inl b ↦ rw (a, b) (refused _)
      | inr b ↦ elim (Bool-cases (contains st.student_id (student_ids s.students))) [
        | inl c ↦ rw (a, b, c) (refused _)
        | inr c ↦ rw (a, b, c) (created a b c)
      ]
    ]
  ])
]

module _ (web : Web) (decode : Decoders) (h : Handler) (turn : Turn) where
  -- The address of the photo: none without a Cloudinary client, or what the upload has answered.
  pub data Photo (w : web.World) (content filename : String) : String → Type 0 where
    no_cloud : h.cloud ≡ none → Photo w content filename ""
    uploaded :
        (c : CloudClient) (w' : web.World) (r : UploadResult)
        → h.cloud ≡ some c
        → upload web decode c w content filename "goattend/students" ≡ (w', ok r)
        → Photo w content filename r.secure_url

  -- The request is answered by 201 with the new student, who has the fields of the request and whose
  -- keys were free; no other row has changed.
  pub record IsRegistered (state state' : State web decode) (bound : Result RegisterRequest)
      (part : PhotoPart) (r : Reply) : Type 0 where
    pub req : RegisterRequest
    pub parsed : bound ≡ ok req
    pub filename : String
    pub named : part.filename ≡ ok filename
    pub content : String
    pub read : part.content ≡ ok content
    pub url : String
    pub photo : Photo state.1 content filename url
    pub body : r ≡ respond 201 (student (stamped turn.uuid turn.now (new_student req url)))
    pub stored : state'.0 ≡ record state.0 {
      students = stamped turn.uuid turn.now (new_student req url) ∷ state.0.students;
    }
    pub free_id : contains turn.uuid (ids state.0.students) ≡ false
    pub free_email : contains req.email (emails state.0.students) ≡ false
    pub free_student_id : contains req.student_id (student_ids state.0.students) ≡ false

  -- The request is answered by an error, and the tables are as before.
  pub record IsRefused (state state' : State web decode) (r : Reply) : Type 0 where
    pub text : String
    pub code : (r.status ≡ 400) ⊎ ((r.status ≡ 409) ⊎ (r.status ≡ 500))
    pub says : r ≡ respond r.status (failure text)
    pub untouched : state'.0 ≡ state.0

  abbrev Ends :
      State web decode → Result RegisterRequest → PhotoPart → State web decode × Reply → Type 0
  Ends state bound part (state', r) =
      IsRegistered state state' bound part r ⊎ IsRefused state state' r

  module _ (w : web.World) (s : Store) (req : RegisterRequest) (content filename : String) where
    abbrev whole : PhotoPart
    whole = record { filename = ok filename; content = ok content }

    after_create-Ends :
        (w' : web.World) (url : String) (r : Store × Done)
        → Photo w content filename url
        → CreateOutcome s (stamped turn.uuid turn.now (new_student req url)) r
        → Ends
            (s, w)
            (ok req)
            whole
            (after_create web decode h w'
              (stamped turn.uuid turn.now (new_student req url))
              content
              filename
              r)
    unfolding after_create
    after_create-Ends w' url _ p (created new_id new_email new_student_id) = inl (record {
      req = req;
      parsed = refl;
      filename = filename;
      named = refl;
      content = content;
      read = refl;
      url = url;
      photo = p;
      body = refl;
      stored = refl;
      free_id = new_id;
      free_email = new_email;
      free_student_id = new_student_id;
    })
    after_create-Ends w' url _ p (refused text) =
        inr (record { text = _; code = inr (inl refl); says = refl; untouched = refl })

    save_student-Ends :
        (w' : web.World) (url : String)
        → Photo w content filename url
        → Ends
            (s, w)
            (ok req)
            whole
            (save_student web decode h turn (s, w') req content filename url)
    unfolding save_student
    save_student-Ends w' url p =
        after_create-Ends w' url _ p
          (create_student-Outcome turn.insert s turn.uuid turn.now (new_student req url))

    after_upload-Ends :
        (c : CloudClient)
        → h.cloud ≡ some c
        → (answer : web.World × Result UploadResult)
        → upload web decode c w content filename "goattend/students" ≡ answer
        → Ends (s, w) (ok req) whole (after_upload web decode h turn s req content filename answer)
    unfolding after_upload
    after_upload-Ends c e (w', err text) sent = inr (record {
      text = "failed to upload photo";
      code = inr (inr refl);
      says = refl;
      untouched = refl;
    })
    after_upload-Ends c e (w', ok r) sent =
        save_student-Ends w' r.secure_url (uploaded c w' r e sent)

    upload_photo-Ends :
        (cloud : Option CloudClient)
        → h.cloud ≡ cloud
        → Ends
            (s, w)
            (ok req)
            whole
            (upload_photo web decode h cloud turn (s, w) req content filename)
    unfolding upload_photo
    upload_photo-Ends none e = save_student-Ends w "" (no_cloud e)
    upload_photo-Ends (some c) e =
        after_upload-Ends c e (upload web decode c w content filename "goattend/students") refl

  after_bind-Ends :
      (state : State web decode) (req : RegisterRequest) (filename content : Result String)
      → Ends state
          (ok req)
          (record { filename = filename; content = content })
          (after_bind web decode h turn state req filename content)
  unfolding after_bind
  after_bind-Ends state req (err _) content =
      inr
        (record { text = "photo file is required"; code = inl refl; says = refl; untouched = refl })
  after_bind-Ends state req (ok filename) (err _) = inr (record {
    text = "failed to read photo";
    code = inr (inr refl);
    says = refl;
    untouched = refl;
  })
  after_bind-Ends (s, w) req (ok filename) (ok content) =
      upload_photo-Ends w s req content filename h.cloud refl

  -- A registration ends in one of two ways. Either it is answered by 201 with a new student, who has
  -- the fields of the request, the new id, the time and the address of the uploaded photo, or none
  -- without a Cloudinary client, whose e-mail and student number were free, and who is the only change
  -- of the tables. Or it is answered by 400, 409 or 500, and the tables are as before.
  pub register_student-Ends :
      (state : State web decode) (bound : Result RegisterRequest) (part : PhotoPart)
      → (let a = register_student web decode h turn state bound part in
          IsRegistered state a.0 bound part a.1 ⊎ IsRefused state a.0 a.1)
  unfolding register_student
  register_student-Ends state (err e) part =
      inr (record { text = e; code = inl refl; says = refl; untouched = refl })
  register_student-Ends state (ok req) part = after_bind-Ends state req part.filename part.content
