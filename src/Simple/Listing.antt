-- ===== src/Simple/Listing.antt =====
-- newGoAttend/backend/internal/store/store.go: what ListAttendance returns.
use mathlib.Core.List.{head?, Perm, map-append}
use mathlib.Core.List.Perm
use Prim.Native.Nat.{min}
use go_attend.Common.{
  ℕ, zero, suc, ◌≤◌, ◌<◌, String, ◌≡◌, refl, sym, ap, ◌∙◌, true, Bool-cases, inl, inr, none, some,
  Option-cases, List, [], ◌∷◌, if◌then◌else◌, ◌==◌, ok, ok_injective, find, All, All-take, take,
  drop, map, subst, ◌++◌, length, length-take, arith,
}
use go_attend.Common.Int.{ℤ, pos, pos_part, leb_ℤ}
use go_attend.Common.Sql.{Call, query-ok, contains}
use go_attend.Common.Newest.{
  order_newest, IsNewestFirst, order_newest-IsNewestFirst, order_newest-All, take-IsNewestFirst,
  length-order_newest, order_newest-first, order_newest-perm, take-drop_older,
}
use go_attend.Common.Web.{Web}
use go_attend.Simple.Store.{
  Student, AttendanceRecord, AttendanceRow, Store, ids, is_student, join_students, list_attendance,
  row_of, new_record,
}
use go_attend.Simple.Keys.{IsSound}
use go_attend.Simple.Clients.{Decoders}
use go_attend.Simple.Handler.{Handler, Turn, PhotoPart, State, Reply, respond, marked, face_login}
use go_attend.Simple.Login.{face_login-Ends}

abbrev pub when_marked : AttendanceRecord → ℕ
when_marked r = r.timestamp

abbrev pub limit_of : ℤ → ℕ
limit_of limit = if leb_ℤ limit (pos 0) then 50 else pos_part limit

-- The record has the name of its student.
abbrev pub IsNamed : Store → AttendanceRecord → Type 0
IsNamed s r =
    (st : Student) × (find (is_student r.student_id) s.students ≡ some st) × (r.name ≡ st.name)

-- The records of a page. With the rows that are left out, their rows are those of the table, each once;
-- there are as many as the limit and the table allow, from new to old; no row that is left out is newer
-- than one of them, and each has the name of its student.
pub record IsPage (s : Store) (limit : ℤ) (rs : List AttendanceRecord) : Type 0 where
  pub left_out : List AttendanceRow
  pub all : Perm (map row_of rs ++ left_out) s.attendance
  pub count : length rs ≡ min (limit_of limit) (length s.attendance)
  pub newest_first : IsNewestFirst when_marked rs
  pub older :
      All
        (λ (r : AttendanceRecord). All (λ (x : AttendanceRow). x.timestamp ≤ r.timestamp) left_out)
        rs
  pub named : All (IsNamed s) rs

contains-find :
    (id : String) (sts : List Student)
    → contains id (ids sts) ≡ true
    → (st : Student) × (find (is_student id) sts ≡ some st)
contains-find id [] h = cc
contains-find id (x ∷ sts) h = elim (Bool-cases (x.id == id)) [
  | inl here ↦ (x, rw here refl)
  | inr later ↦ rw later (contains-find id sts (rw later at h))
]

module _ (s : Store) where
  -- The join loses no row whose student is known.
  join_students-length :
      (rows : List AttendanceRow)
      → All (λ (r : AttendanceRow). contains r.student_id (ids s.students) ≡ true) rows
      → length (join_students s.students rows) ≡ length rows
  unfolding join_students
  join_students-length [] h = refl
  join_students-length (r ∷ rows) h =
      let (st, found) = contains-find r.student_id s.students h.0 in
      rw found (ap suc (join_students-length rows h.1))

  join_students-rows :
      (rows : List AttendanceRow)
      → All (λ (r : AttendanceRow). contains r.student_id (ids s.students) ≡ true) rows
      → map row_of (join_students s.students rows) ≡ rows
  unfolding join_students
  join_students-rows [] h = refl
  join_students-rows (r ∷ rows) h =
      let (st, found) = contains-find r.student_id s.students h.0 in
      rw found (ap (◌∷◌ r) (join_students-rows rows h.1))

  join_students-IsNamed :
      (rows : List AttendanceRow) → All (IsNamed s) (join_students s.students rows)
  unfolding join_students
  join_students-IsNamed [] = tt
  join_students-IsNamed (r ∷ rows) =
      elim (Option-cases (find (is_student r.student_id) s.students)) [
        | inl e ↦ rw e (join_students-IsNamed rows)
        | inr (st, e) ↦ rw e ((st, e, refl), join_students-IsNamed rows)
      ]

  join_students-All :
      (t : ℕ) (rows : List AttendanceRow)
      → All (λ (r : AttendanceRow). r.timestamp ≤ t) rows
      → All (λ (r : AttendanceRecord). when_marked r ≤ t) (join_students s.students rows)
  unfolding join_students
  join_students-All t [] h = tt
  join_students-All t (r ∷ rows) h =
      elim (Option-cases (find (is_student r.student_id) s.students)) [
        | inl e ↦ rw e (join_students-All t rows h.1)
        | inr (st, e) ↦ rw e (h.0, join_students-All t rows h.1)
      ]

limit_lem : (limit : ℤ) → pos_part (if leb_ℤ limit (pos 0) then pos 50 else limit) ≡ limit_of limit
limit_lem limit = ground arith

take-append_drop_all : (n : ℕ) (l : List AttendanceRecord) → take n l ++ drop n l ≡ l
take-append_drop_all zero l = refl
take-append_drop_all (suc n) [] = refl
take-append_drop_all (suc n) (x ∷ l) = ap (◌∷◌ x) (take-append_drop_all n l)

rows-older :
    (t : ℕ) (l : List AttendanceRecord)
    → All (λ (r : AttendanceRecord). when_marked r ≤ t) l
    → All (λ (x : AttendanceRow). x.timestamp ≤ t) (map row_of l)
rows-older t [] h = tt
rows-older t (r ∷ l) h = (h.0, rows-older t l h.1)

all-older :
    (rs left : List AttendanceRecord)
    → All
        (λ (r : AttendanceRecord).
          All (λ (x : AttendanceRecord). when_marked x ≤ when_marked r) left)
        rs
    → All
        (λ (r : AttendanceRecord).
          All (λ (x : AttendanceRow). x.timestamp ≤ r.timestamp) (map row_of left))
        rs
all-older [] left h = tt
all-older (r ∷ rs) left h = (rows-older r.timestamp left h.0, all-older rs left h.1)

-- In sound tables ListAttendance returns a page of the table of attendance: stored rows only, each at
-- most once and with the name of its student, the newest as far as the limit goes, or 50 if that is not
-- positive, from new to old. Which rows of equal times are on it is left open.
pub list_attendance-IsPage :
    (call : Call) (s : Store) (limit : ℤ) (rs : List AttendanceRecord)
    → IsSound s
    → list_attendance call s limit ≡ ok rs
    → IsPage s limit rs
unfolding list_attendance
list_attendance-IsPage call s limit rs sound h =
    let rows = join_students s.students s.attendance in
    let ordered = order_newest when_marked rows in
    let n = limit_of limit in
    let sorted = order_newest-IsNewestFirst when_marked rows in
    let e : rs ≡ take n ordered =
      sym (ok_injective (query-ok call _ h)) ∙ ap (λ m. take m ordered) (limit_lem limit) in
    let split : map row_of ordered ≡ map row_of (take n ordered) ++ map row_of (drop n ordered) =
      ap (map row_of) (sym (take-append_drop_all n ordered))
      ∙ map-append row_of (take n ordered) (drop n ordered) in
    let perm : Perm (map row_of ordered) s.attendance =
      subst (Perm (map row_of ordered)) (join_students-rows s s.attendance sound.rows)
        (Perm.map row_of (order_newest-perm when_marked rows)) in
    subst (IsPage s limit) (sym e) (record {
      left_out = map row_of (drop n ordered);
      all = subst (λ l. Perm l s.attendance) split perm;
      count =
          length-take n ordered
          ∙ ap (min n) (
              length-order_newest when_marked rows
              ∙ join_students-length s s.attendance sound.rows);
      newest_first = take-IsNewestFirst when_marked n ordered sorted;
      older =
          all-older (take n ordered) (drop n ordered)
            (take-drop_older when_marked n ordered sorted);
      named =
          All-take (IsNamed s) n ordered
            (order_newest-All when_marked (IsNamed s) rows (join_students-IsNamed s s.attendance));
    })

take_first :
    {A : Type 0} (n : ℕ) (l : List A) {a : A}
    → 0 < n
    → head? l ≡ some a
    → (rest : List A) × (take n l ≡ a ∷ rest)
take_first zero l h e = absurd (omega arith)
take_first (suc n) [] h e = cc
take_first (suc n) (x ∷ l) h e = (take n l, cc)

limit_of-positive : (limit : ℤ) → 0 < limit_of limit
limit_of-positive limit = ground arith

marked_record : {st st' : Student} {r r' : AttendanceRecord} → marked st r ≡ marked st' r' → r ≡ r'
marked_record e = cc

list_attendance-first :
    (call : Call) (s : Store) (uuid : String) (now : ℕ) (st : Student) (limit : ℤ)
    → find (is_student st.id) s.students ≡ some st
    → All (λ (r : AttendanceRow). r.timestamp ≤ now) s.attendance
    → call.fault ≡ none
    → (rest : List AttendanceRecord) × (list_attendance call
          (record s { attendance = row_of (new_record uuid now st.id) ∷ s.attendance })
          limit
        ≡ ok (record (new_record uuid now st.id) { name = st.name } ∷ rest))
unfolding list_attendance join_students
list_attendance-first call s uuid now st limit known past up =
    let rec : AttendanceRecord = record (new_record uuid now st.id) { name = st.name } in
    let rows = join_students s.students s.attendance in
    let (rest, first) =
      take_first (limit_of limit) (order_newest when_marked (rec ∷ rows)) (limit_of-positive limit)
        (order_newest-first when_marked rec rows (join_students-All s now s.attendance past)) in
    (rest, rw (up, known, limit_lem limit) (ap (λ l. ok l) first))

-- What a login by face answers with 200 is the first record of the list that is asked for next, if no
-- row is newer than the login.
pub face_login-list_attendance :
    (web : Web) (decode : Decoders) (h : Handler) (turn : Turn) (state : State web decode)
    (part : PhotoPart) (st : Student) (rec : AttendanceRecord) (call : Call) (limit : ℤ)
    → (face_login web decode h turn state part).1 ≡ respond 200 (marked st rec)
    → All (λ (r : AttendanceRow). r.timestamp ≤ turn.now) state.0.attendance
    → call.fault ≡ none
    → (rest : List AttendanceRecord) × (list_attendance call
          (face_login web decode h turn state part).0.0
          limit
        ≡ ok (rec ∷ rest))
face_login-list_attendance web decode h turn state part st rec call limit answered past up =
    elim (face_login-Ends web decode h turn state part) [
      | inr bad ↦ cc (ap (λ (r : Reply). r.body) (sym bad.says ∙ answered))
      | inl good ↦
          let first = marked_record (ap (λ (r : Reply). r.body) (sym good.body ∙ answered)) in
          let (rest, listed) =
            list_attendance-first call state.0 turn.uuid turn.now good.st limit good.known past
              up in
          (rest, rw (good.stored, ← first) listed)
    ]
