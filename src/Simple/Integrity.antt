-- ===== src/Simple/Integrity.antt =====
-- newGoAttend/backend: the tables after any requests to the handlers.
use go_attend.Common.{sym, subst, Bool, String, Result, inl, inr}
use go_attend.Common.Sql.{Call}
use go_attend.Common.Web.{Web}
use go_attend.Simple.Store.{Store, migrated, update_student_photo}
use go_attend.Simple.Keys.{
  IsSound, migrated-IsSound, IsSound-student, IsSound-row, found_student,
  update_student_photo-IsSound,
}
use go_attend.Simple.Clients.{Decoders}
use go_attend.Simple.Handler.{
  Handler, Turn, RegisterRequest, PhotoPart, register_student, face_login,
}
use go_attend.Simple.Registration.{register_student-Ends}
use go_attend.Simple.Login.{face_login-Ends}

module _ (web : Web) (decode : Decoders) (h : Handler) where
  -- The tables that a new file has after some requests, each with what the network, the database and
  -- the clock give it.
  pub data Served (foreign_keys : Bool) : Store → Type 0 where
    fresh : Served foreign_keys (migrated foreign_keys)
    registers :
        (s : Store) (w : web.World) (turn : Turn) (bound : Result RegisterRequest)
        (part : PhotoPart)
        → Served foreign_keys s
        → Served foreign_keys (register_student web decode h turn (s, w) bound part).0.0
    logs_in :
        (s : Store) (w : web.World) (turn : Turn) (part : PhotoPart)
        → Served foreign_keys s
        → Served foreign_keys (face_login web decode h turn (s, w) part).0.0
    changes_photo :
        (s : Store) (call : Call) (id photo_url : String)
        → Served foreign_keys s
        → Served foreign_keys (update_student_photo call s id photo_url).0

  register_student-IsSound :
      (s : Store) (w : web.World) (turn : Turn) (bound : Result RegisterRequest) (part : PhotoPart)
      → IsSound s
      → IsSound (register_student web decode h turn (s, w) bound part).0.0
  register_student-IsSound s w turn bound part sound =
      elim (register_student-Ends web decode h turn (s, w) bound part) [
        | inl reg ↦
            subst IsSound (sym reg.stored)
              (IsSound-student s sound _ reg.free_id reg.free_email reg.free_student_id)
        | inr bad ↦ subst IsSound (sym bad.untouched) sound
      ]

  face_login-IsSound :
      (s : Store) (w : web.World) (turn : Turn) (part : PhotoPart)
      → IsSound s
      → IsSound (face_login web decode h turn (s, w) part).0.0
  face_login-IsSound s w turn part sound = elim (face_login-Ends web decode h turn (s, w) part) [
    | inl good ↦ subst IsSound (sym good.stored) (
        IsSound-row s sound _ good.fresh (found_student good.st.id s.students good.st good.known).1)
    | inr bad ↦ subst IsSound (sym bad.untouched) sound
  ]

  -- After any requests the ids, the e-mails and the student numbers are distinct, and every row of
  -- attendance is of a student, whether SQLite checks references or not.
  pub Served-IsSound : (foreign_keys : Bool) (s : Store) → Served foreign_keys s → IsSound s
  Served-IsSound foreign_keys _ fresh = migrated-IsSound foreign_keys
  Served-IsSound foreign_keys _ (registers s w turn bound part before) =
      register_student-IsSound s w turn bound part (Served-IsSound foreign_keys s before)
  Served-IsSound foreign_keys _ (logs_in s w turn part before) =
      face_login-IsSound s w turn part (Served-IsSound foreign_keys s before)
  Served-IsSound foreign_keys _ (changes_photo s call id photo_url before) =
      update_student_photo-IsSound s (Served-IsSound foreign_keys s before) call id photo_url
