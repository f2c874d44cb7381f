-- ===== src/Attendance/Query.antt =====
-- internal/attendance/repo.go: the query that ListEvents builds and runs.
use Prim.Native.String
use go_attend.Common.{
  ℕ, zero, suc, ◌+◌, ◌/◌, ◌%◌, String, Bool, true, false, Option, none, some, List, [], ◌∷◌, ◌++◌,
  map, if◌then◌else◌, ◌==◌, ◌&&◌, ltb, Result, ok, filter, length, get_elem?, take, drop,
}
use go_attend.Common.Int.{ℤ, pos, pos_part, leb_ℤ, ltb_ℤ}
use go_attend.Attendance.Tables.{Event, Database, Call, query, order_desc}

-- One decimal digit.
abbrev pub digit : ℕ → String
digit zero = "0"
digit (suc zero) = "1"
digit (suc (suc zero)) = "2"
digit (suc (suc (suc zero))) = "3"
digit (suc (suc (suc (suc zero)))) = "4"
digit (suc (suc (suc (suc (suc zero))))) = "5"
digit (suc (suc (suc (suc (suc (suc zero)))))) = "6"
digit (suc (suc (suc (suc (suc (suc (suc zero))))))) = "7"
digit (suc (suc (suc (suc (suc (suc (suc (suc zero)))))))) = "8"
digit _ = "9"

-- fmt.Sprintf("%d", i) of a number that is not negative; the number of rounds is at most i + 1.
unfoldable pub itoa_rounds : ℕ → ℕ → String
itoa_rounds zero i = ""
itoa_rounds (suc rounds) i =
    let front = itoa_rounds rounds (i / 10) in
    if ltb i 10 then digit i else String.◌++◌ front (digit (i % 10))

unfoldable pub itoa : ℕ → String
unfolding itoa_rounds
itoa i = itoa_rounds (i + 1) i

-- The loop of `joinClauses`.
unfoldable pub join_loop : String → String → List String → String
join_loop sep out [] = out
join_loop sep out (part ∷ parts) = join_loop sep (String.◌++◌ out (String.◌++◌ sep part)) parts

unfoldable pub join_clauses : List String → String → String
unfolding join_loop
join_clauses [] sep = ""
join_clauses (part ∷ parts) sep = join_loop sep part parts

-- What is appended to `args`.
pub data Arg : Type 0 where
  text : String → Arg
  number : ℤ → Arg

-- A clause `column = $i` is kept with its parts.
pub data Column : Type 0 where
  device_id : Column
  user_id : Column

pub record Clause : Type 0 where
  pub column : Column
  pub place : ℕ

pub record Query : Type 0 where
  pub clauses : List Clause
  pub limit_place : ℕ
  pub offset_place : ℕ
  pub args : List Arg

-- The two variables that the tests on the filters extend.
pub record Filters : Type 0 where
  pub clauses : List Clause
  pub args : List Arg

unfoldable pub add_filter : Column → String → Filters → Filters
add_filter column value f = if value == "" then f else (record {
  clauses = f.clauses ++ record { column = column; place = length f.args + 1 } ∷ [];
  args = f.args ++ text value ∷ [];
})

unfoldable pub build_query : String → String → ℤ → ℤ → Query
unfolding add_filter
build_query device user limit offset =
    let limit' = if leb_ℤ limit (pos 0) then pos 50 else limit in
    let offset' = if ltb_ℤ offset (pos 0) then pos 0 else offset in
    let f =
      add_filter user_id user (add_filter device_id device (record { clauses = []; args = [] })) in
    record {
      clauses = f.clauses;
      limit_place = length f.args + 1;
      offset_place = length f.args + 2;
      args = f.args ++ number limit' ∷ number offset' ∷ [];
    }

unfoldable pub column_name : Column → String
column_name device_id = "device_id"
column_name user_id = "user_id"

unfoldable pub clause_text : Clause → String
unfolding column_name itoa
clause_text c = String.◌++◌ (column_name c.column) (String.◌++◌ " = $" (itoa c.place))

abbrev where_text : List Clause → String
where_text [] = ""
where_text cs = String.◌++◌ " WHERE " (join_clauses (map clause_text cs) " AND ")

abbrev pub select_events : String
select_events =
    "SELECT id, user_id, device_id, occurred_at, location, image_url, status, match_score, created_at FROM attendance_events"

-- The text that is sent to the server.
unfoldable pub query_text : Query → String
unfolding clause_text join_clauses
query_text q = String.◌++◌ select_events (
    String.◌++◌ (where_text q.clauses) (
      String.◌++◌ " ORDER BY occurred_at DESC LIMIT $"
        (String.◌++◌ (itoa q.limit_place) (String.◌++◌ " OFFSET $" (itoa q.offset_place)))))

-- What the server makes of the text with its arguments: `$i` is the i-th of them, from 1.
abbrev pub arg_at : List Arg → ℕ → Option Arg
arg_at args zero = none
arg_at args (suc i) = get_elem? args i

abbrev pub column_of : Column → Event → String
column_of device_id e = e.device_id
column_of user_id e = e.user_id

abbrev pub equals : Option Arg → String → Bool
equals (some (text value)) s = s == value
equals _ s = false

abbrev pub number_of : Option Arg → ℕ
number_of (some (number n)) = pos_part n
number_of _ = 0

unfoldable pub satisfies : List Arg → List Clause → Event → Bool
satisfies args [] e = true
satisfies args (c ∷ cs) e =
    let rest = satisfies args cs e in equals (arg_at args c.place) (column_of c.column e) && rest

unfoldable pub run_query : Query → List Event → List Event
unfolding satisfies
run_query q rows = take (number_of (arg_at q.args q.limit_place)) (
    drop (number_of (arg_at q.args q.offset_place))
      (order_desc (filter (satisfies q.args q.clauses) rows)))

unfoldable pub list_events : Call → Database → String → String → ℤ → ℤ → Result (List Event)
unfolding build_query run_query
list_events call db device user limit offset =
    query call (ok (run_query (build_query device user limit offset) db.events))
