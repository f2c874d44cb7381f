-- ===== src/Attendance/Listing.antt =====
-- internal/attendance/repo.go: what ListEvents returns.
use go_attend.Common.{
  ℕ, ◌≤◌, String, ◌≡◌, refl, sym, ap, ◌∙◌, Bool, true, none, List, [], ◌∷◌, if◌then◌else◌, ◌==◌,
  ◌&&◌, ◌||◌, ok, filter, length, length-take, take, drop, All, arith, All-take, All-drop,
  filter-All, ok_injective,
}
use go_attend.Common.Int.{ℤ, pos, pos_part, leb_ℤ, ltb_ℤ}
use go_attend.Attendance.Tables.{Event, Database, Call, query-ok, order_desc}
use go_attend.Common.Newest.{
  IsNewestFirst, order_newest-IsNewestFirst, order_newest-All, take-IsNewestFirst,
  drop-IsNewestFirst,
}
use go_attend.Attendance.Query.{
  Query, arg_at, number_of, build_query, run_query, satisfies, list_events,
}

-- An empty filter lets every row through.
abbrev pub matches : String → String → Event → Bool
matches device user e = (device == "" || e.device_id == device) && (user == "" || e.user_id == user)

abbrev pub limit_of : ℤ → ℕ
limit_of limit = if leb_ℤ limit (pos 0) then 50 else pos_part limit

-- The rows that pass the filters, the newest first.
abbrev pub selected : Database → String → String → List Event
selected db device user = order_desc (filter (matches device user) db.events)

filter_same :
    (p q : Event → Bool) (es : List Event) → ((e : Event) → p e ≡ q e) → filter p es ≡ filter q es
filter_same p q [] h = refl
filter_same p q (e ∷ es) h = ground (arith, h e, filter_same p q es h)

limit_arg : (limit : ℤ) → pos_part (if leb_ℤ limit (pos 0) then pos 50 else limit) ≡ limit_of limit
limit_arg limit = ground arith

offset_arg :
    (offset : ℤ) → pos_part (if ltb_ℤ offset (pos 0) then pos 0 else offset) ≡ pos_part offset
offset_arg offset = ground arith

page_same :
    (n n' m m' : ℕ) (p q : Event → Bool) (es : List Event)
    → n ≡ n'
    → m ≡ m'
    → ((e : Event) → p e ≡ q e)
    → take n (drop m (order_desc (filter p es))) ≡ take n' (drop m' (order_desc (filter q es)))
page_same n n' m m' p q es en em h = rw (en, em, filter_same p q es h)

module _ (device user : String) (limit offset : ℤ) where
  abbrev built : Query
  built = build_query device user limit offset

  satisfies-built : (e : Event) → satisfies built.args built.clauses e ≡ matches device user e
  unfolding build_query satisfies
  satisfies-built e = ground arith

  limit-built : number_of (arg_at built.args built.limit_place) ≡ limit_of limit
  unfolding build_query
  limit-built = ground arith

  offset-built : number_of (arg_at built.args built.offset_place) ≡ pos_part offset
  unfolding build_query
  offset-built = ground arith

  pub run_query-built :
      (es : List Event)
      → run_query built es
        ≡ take
            (limit_of limit)
            (drop (pos_part offset) (order_desc (filter (matches device user) es)))
  unfolding run_query
  run_query-built es =
      page_same (number_of (arg_at built.args built.limit_place)) (limit_of limit)
        (number_of (arg_at built.args built.offset_place)) (pos_part offset)
        (satisfies built.args built.clauses) (matches device user) es limit-built offset-built
        satisfies-built

-- ListEvents returns the page that its arguments ask for of the selected rows, the newest first, with
-- every argument bound to its own placeholder: 50 rows if the limit is not positive, and the first
-- page if the offset is negative.
pub list_events_lem :
    (call : Call) (db : Database) (device user : String) (limit offset : ℤ)
    → call.fault ≡ none
    → list_events call db device user limit offset
      ≡ ok (take (limit_of limit) (drop (pos_part offset) (selected db device user)))
unfolding list_events
list_events_lem call db device user limit offset up =
    rw up (ap (λ l. ok l) (run_query-built device user limit offset db.events))

-- A page is no longer than its limit, runs from new to old, and holds only rows that pass the filters.
pub list_events-page :
    (call : Call) (db : Database) (device user : String) (limit offset : ℤ) (es : List Event)
    → list_events call db device user limit offset ≡ ok es
    → (length es ≤ limit_of limit)
      × IsNewestFirst (λ (x : Event). x.when) es
      × All (λ e. matches device user e ≡ true) es
unfolding list_events
list_events-page call db device user limit offset es h =
    let rows = filter (matches device user) db.events in
    let page = drop (pos_part offset) (order_desc rows) in
    let e : es ≡ take (limit_of limit) page =
      sym (ok_injective (query-ok call _ h)) ∙ run_query-built device user limit offset db.events in
    let P = λ (x : Event). matches device user x ≡ true in
    rw e (
      omega (arith, length-take (limit_of limit) page),
      take-IsNewestFirst (λ (x : Event). x.when) (limit_of limit) page
          (drop-IsNewestFirst (λ (x : Event). x.when) (pos_part offset) _
            (order_newest-IsNewestFirst (λ (x : Event). x.when) rows)),
      All-take P (limit_of limit) page (
          All-drop P (pos_part offset) (order_desc rows) (
            order_newest-All (λ (x : Event). x.when) P rows
              (filter-All (matches device user) db.events))),
    )
