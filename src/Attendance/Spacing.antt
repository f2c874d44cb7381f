-- ===== src/Attendance/Spacing.antt =====
-- internal/attendance/service.go: what deduplication keeps true of the events.
use mathlib.Core.List.{map}
use go_attend.Common.{
  Bool, Option, err, ◌&&◌, subst, if_induction, if◌then◌else◌, ℕ, ◌+◌, ◌≤◌, ◌<◌, String, ◌≡◌, refl,
  sym, ap, ◌∙◌, ◌⊎◌, inl, inr, none, some, List, [], ◌∷◌, le→leb, nat_eq, arith, true, false,
  Bool-cases, Result, ok, All, In, filter, filter-nil, In-filter, All-filter, ok_injective, ◌==◌,
  ◌||◌, eq_iff, eq_refl,
}
use go_attend.Common.Int.{ℤ, pos}
use go_attend.Attendance.Tables.{Event, Database, Call, query-ok, execute-keeps, contains}
use go_attend.Common.Newest.{In-order_newest, In-head?, order_newest-none, order_newest-first}
use go_attend.Attendance.Outcome.{
  rejected, known, stored, stored_event, check_in-Outcome, named, unnamed, same_stamp,
}
use go_attend.Attendance.Events.{is_recent, recent_event, insert_event}
use go_attend.Attendance.Service.{
  Service, Attempt, new_event, after_recent, check_in_between, check_in,
}

-- Two events of one user on one device lie more than `w` apart.
abbrev pub Apart : ℕ → Event → Event → Type 0
Apart w a b =
    a.user_id ≡ b.user_id
    → a.device_id ≡ b.device_id
    → (a.when + w < b.when) ⊎ (b.when + w < a.when)

abbrev pub IsSpaced : ℕ → List Event → Type 0
IsSpaced w [] = Unit
IsSpaced w (e ∷ es) = All (Apart w e) es × IsSpaced w es

-- No event lies after `t`.
abbrev pub IsPast : ℕ → List Event → Type 0
IsPast t = All (λ e. e.when ≤ t)

IsPast-le : (t t' : ℕ) (es : List Event) → t ≤ t' → IsPast t es → IsPast t' es
IsPast-le t t' [] le h = tt
IsPast-le t t' (e ∷ es) le h = (omega (arith, h.0), IsPast-le t t' es le h.1)

-- What no row of the query says about every event.
Apart-of_old :
    (w now stamp : ℕ) (e : Event) (es : List Event)
    → e.when ≡ stamp
    → now ≤ stamp
    → All (λ x. is_recent now (pos w) e.user_id e.device_id x ≡ false) es
    → All (Apart w e) es
Apart-of_old w now stamp e [] at le h = tt
Apart-of_old w now stamp e (x ∷ xs) at le h = (
  λ u d. inr (ground (arith, h.0, eq_iff x.user_id e.user_id, eq_iff x.device_id e.device_id)),
  Apart-of_old w now stamp e xs at le h.1,
)

recent_none :
    (call : Call) (db : Database) (user_id device_id : String) (window : ℤ)
    → recent_event call db user_id device_id window ≡ ok none
    → All (λ x. is_recent call.now window user_id device_id x ≡ false) db.events
unfolding recent_event
recent_none call db user_id device_id window h =
    filter-nil (is_recent call.now window user_id device_id) db.events
      (order_newest-none (λ (x : Event). x.when) _ (ok_injective (query-ok call _ h)))

-- What a row of the query is.
pub recent_some :
    (call : Call) (db : Database) (user_id device_id : String) (window : ℤ) (e : Event)
    → recent_event call db user_id device_id window ≡ ok (some e)
    → In e db.events × (is_recent call.now window user_id device_id e ≡ true)
unfolding recent_event
recent_some call db user_id device_id window e h =
    In-filter (is_recent call.now window user_id device_id) e db.events (
      In-order_newest (λ (x : Event). x.when) e _
        (In-head? (λ (x : Event). x.when) e _ (ok_injective (query-ok call _ h))))

abbrev pub is_own : String → String → Event → Bool
is_own user_id device_id e = e.user_id == user_id && e.device_id == device_id

own_old :
    (now w : ℕ) (user_id device_id : String) (es : List Event)
    → All
        (λ x. is_recent now (pos w) user_id device_id x ≡ false)
        (filter (is_own user_id device_id) es)
    → All (λ x. is_recent now (pos w) user_id device_id x ≡ false) es
own_old now w user_id device_id [] h = tt
own_old now w user_id device_id (x ∷ xs) h = elim (Bool-cases (is_own user_id device_id x)) [
  | inl own ↦ let (here, others) = rw own at h in (here, own_old now w user_id device_id xs others)
  | inr other ↦ (ground arith, own_old now w user_id device_id xs (rw other at h))
]

module _ (a : Attempt) (db : Database) (user_id device_id location image_url : String) (w : ℕ)
    (now_le : a.asked.now ≤ a.stamp) (spaced : IsSpaced w db.events) where
  insert_event-IsSpaced :
      All (λ x. is_recent a.asked.now (pos w) user_id device_id x ≡ false) db.events
      → IsSpaced w
          (insert_event a.stored db a.uuid a.stamp
            (new_event a user_id device_id location image_url)).0.events
  unfolding insert_event
  insert_event-IsSpaced old =
      execute-keeps (λ (d : Database). IsSpaced w d.events) a.stored db _ spaced
        (if_induction (λ (r : Database × Result Event). IsSpaced w r.0.events)
          (contains a.uuid (map (λ e. e.id) db.events)) _ _ (λ _. spaced)
          λ _.
            if_induction (λ (r : Database × Result Event). IsSpaced w r.0.events)
              (contains device_id db.devices) _ _
              (λ _. (
                Apart-of_old w a.asked.now a.stamp
                    (record (stored_event a user_id device_id location image_url) {
                      when = if nat_eq a.stamp 0 then a.stamp else a.stamp;
                    })
                    db.events (same_stamp a.stamp) now_le old,
                spaced,
              ))
              (λ _. spaced))

  after_recent-IsSpaced :
      (r : Result (Option Event))
      → (r ≡ ok none
          → All (λ x. is_recent a.asked.now (pos w) user_id device_id x ≡ false) db.events)
      → IsSpaced w (after_recent a db (new_event a user_id device_id location image_url) r).0.events
  unfolding after_recent
  after_recent-IsSpaced (err e) old = spaced
  after_recent-IsSpaced (ok (some recent)) old = spaced
  after_recent-IsSpaced (ok none) old = insert_event-IsSpaced (old refl)

-- A check-in keeps the events of one user on one device more than the window `w` apart, also where
-- other requests write between its look-up and its insertion, if none of them adds or takes away an
-- event of the same user on the same device, and time.Now is not before the NOW() of the look-up.
pub check_in_between-IsSpaced :
    (s : Service) (a : Attempt) (seen db : Database) (user_id device_id location image_url : String)
    (w : ℕ)
    → s.dedup_window ≡ pos w
    → a.asked.now ≤ a.stamp
    → filter (is_own user_id device_id) db.events ≡ filter (is_own user_id device_id) seen.events
    → IsSpaced w db.events
    → IsSpaced w (check_in_between s a seen db user_id device_id location image_url).0.events
unfolding check_in_between
check_in_between-IsSpaced s a seen db user_id device_id location image_url w hw now_le same spaced =
    let old = λ (e : recent_event a.asked seen user_id device_id s.dedup_window ≡ ok none).
      own_old a.asked.now w user_id device_id db.events (
        subst (All (λ x. is_recent a.asked.now (pos w) user_id device_id x ≡ false)) (sym same) (
          All-filter (λ x. is_recent a.asked.now (pos w) user_id device_id x ≡ false)
            (is_own user_id device_id) seen.events
            (recent_none a.asked seen user_id device_id (pos w) (rw (← hw) e)))) in
    if_induction (λ (r : Database × Result Event). IsSpaced w r.0.events)
      (user_id == "" || device_id == "") _ _ (λ _. spaced)
      λ _.
        after_recent-IsSpaced a db user_id device_id location image_url w now_le spaced
          (recent_event a.asked seen user_id device_id s.dedup_window) old

-- Check-ins that follow one another keep the events of one user on one device more than the window `w`
-- apart, and in the past, if the clock that the database and the service read does not run backwards.
check_in-IsSpaced :
    (s : Service) (a : Attempt) (db : Database) (user_id device_id location image_url : String)
    (w t : ℕ)
    → s.dedup_window ≡ pos w
    → IsPast t db.events
    → t ≤ a.asked.now
    → a.asked.now ≤ a.stamp
    → IsSpaced w db.events
    → IsSpaced w (check_in s a db user_id device_id location image_url).0.events
      × IsPast a.stamp (check_in s a db user_id device_id location image_url).0.events
check_in-IsSpaced s a db user_id device_id location image_url w t hw past le le' spaced =
    let past' = IsPast-le t a.stamp db.events (omega arith) past in
    elim (check_in-Outcome s a db user_id device_id location image_url) [
      | rejected text e ↦ rw e (spaced, past')
      | known x r e ↦ rw e (spaced, past')
      | stored r found fresh e ↦
          let old = recent_none a.asked db user_id device_id (pos w) (rw (← hw) r) in
          let row = stored_event a user_id device_id location image_url in
          rw e (
            (Apart-of_old w a.asked.now a.stamp row db.events refl le' old, spaced),
            (omega arith, past'),
          )
    ]

-- The newest row of a user on a device is found while it lies in the window.
recent_newest :
    (call : Call) (db : Database) (row : Event) (w : ℕ)
    → call.fault ≡ none
    → IsPast row.when db.events
    → call.now ≤ row.when + w
    → recent_event call (record db { events = row ∷ db.events }) row.user_id row.device_id (pos w)
      ≡ ok (some row)
unfolding recent_event
recent_newest call db row w up past soon =
    let p = is_recent call.now (pos w) row.user_id row.device_id in
    let passes : p row ≡ true =
      rw (eq_refl, eq_refl, le→leb (call.now + 0) (row.when + w) (omega arith)) in
    rw (up, passes)
      (ap (λ o. ok o)
        (order_newest-first (λ (x : Event). x.when) row (filter p db.events)
          (All-filter (λ x. x.when ≤ row.when) p db.events past)))

found_again :
    (s : Service) (a : Attempt) (db : Database) (user_id device_id location image_url : String)
    (e : Event)
    → (user_id == "" || device_id == "") ≡ false
    → recent_event a.asked db user_id device_id s.dedup_window ≡ ok (some e)
    → check_in s a db user_id device_id location image_url ≡ (db, ok e)
unfolding after_recent
found_again s a db user_id device_id location image_url e present r =
    named s a db user_id device_id location image_url present ∙ rw (r, after_recent)

-- An event that a check-in has stored is what the next check-in gets that is of the user on the device,
-- with nothing written, until more than the window `w` has passed, if the database answers, no other
-- request comes between, and the events before the first check-in lie in its past.
pub check_in_again :
    (s : Service) (a a' : Attempt) (db : Database) (user_id device_id location image_url : String)
    (location' image_url' : String) (w : ℕ) (e : Event)
    → s.dedup_window ≡ pos w
    → IsPast a.stamp db.events
    → recent_event a.asked db user_id device_id s.dedup_window ≡ ok none
    → (check_in s a db user_id device_id location image_url).1 ≡ ok e
    → a'.asked.fault ≡ none
    → a'.asked.now ≤ a.stamp + w
    → check_in s a'
        (check_in s a db user_id device_id location image_url).0
        user_id
        device_id
        location'
        image_url'
      ≡ ((check_in s a db user_id device_id location image_url).0, ok e)
check_in_again s a a' db user_id device_id location image_url location' image_url' w e hw past new
      done up soon =
    elim (check_in-Outcome s a db user_id device_id location image_url) [
      | rejected text eq ↦ cc (ap (λ (p : Database × Result Event). p.1) eq)
      | known x r eq ↦ cc
      | stored r found fresh eq ↦
          let row = stored_event a user_id device_id location image_url in
          let same : row ≡ e =
            ok_injective (sym (ap (λ (p : Database × Result Event). p.1) eq) ∙ done) in
          elim (Bool-cases (user_id == "" || device_id == "")) [
            | inl absent ↦ cc (
              ap (λ (p : Database × Result Event). p.1) eq,
              ap (λ (p : Database × Result Event). p.1)
                  (unnamed s a db user_id device_id location image_url absent),
            )
            | inr present ↦
                rw (← same, eq)
                  (found_again s a' _ user_id device_id location' image_url' row present
                    (rw hw (recent_newest a'.asked db row w up past soon)))
          ]
    ]
