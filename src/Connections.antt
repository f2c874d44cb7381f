-- ===== src/Connections.antt =====
-- internal/store/db.go and redis.go: the two connections, and what the two programs make of them when
-- they start. The clients of database/sql and of go-redis are of a type that is a parameter, and a nil
-- pointer is `none`.
use go_attend.Common.{
  String, ◌≡◌, refl, inl, inr, Option-cases, Bool, true, false, Option, none, some, Result, Done,
  ok, err,
}

-- The end of a start: log.Fatalf, a nil pointer that is read, or a program that goes on.
pub data Start (A : Type 0) : Type 0 where
  exited : String → Start A
  panicked : Start A
  started : A → Start A

module _ {C : Type 0} where
  -- NewDB on the answer of sql.Open, where `ping` is the error of PingContext.
  unfoldable pub new_db : Result C → (C → Option String) → Option C × Option String
  new_db (err e) ping = (none, some e)
  new_db (ok client) ping = (some client, ping client)

  -- DB.Close, on the answer of the client.
  abbrev pub close : Option C → (C → Done) → Done
  close none answer = ok tt
  close (some client) answer = answer client

  -- Redis.Healthy
  abbrev pub healthy : Option C → (C → Option String) → Bool
  healthy none ping = false
  healthy (some client) ping = elim (ping client) [ none ↦ true | some e ↦ false ]

  -- runHTTP only logs the error, and reads the client of the pointer.
  unfoldable pub api_start : Option C × Option String → Start C
  api_start (none, e) = panicked
  api_start (some client, e) = started client

  -- The worker ends on an error.
  unfoldable pub worker_start : Option C × Option String → Start C
  worker_start (db, some e) = exited e
  worker_start (none, none) = panicked
  worker_start (some client, none) = started client

  -- The database of /healthz.
  abbrev pub db_healthy : Option C → Bool
  db_healthy none = false
  db_healthy (some client) = true

  -- How the starts of the API and of the worker end.
  pub data Ends (opened : Result C) (ping : C → Option String) : Start C → Start C → Type 0 where
    no_driver : (e : String) → opened ≡ err e → Ends opened ping panicked (exited e)
    no_answer :
        (client : C) (e : String)
        → opened ≡ ok client
        → ping client ≡ some e
        → Ends opened ping (started client) (exited e)
    both :
        (client : C)
        → opened ≡ ok client
        → ping client ≡ none
        → Ends opened ping (started client) (started client)

  -- Both programs start with a database that answers. Without its driver the API panics and the worker
  -- ends with an error; where the database does not answer only the worker ends.
  pub starts :
      (opened : Result C) (ping : C → Option String)
      → Ends opened ping (api_start (new_db opened ping)) (worker_start (new_db opened ping))
  unfolding api_start worker_start new_db
  starts (err e) ping = no_driver e refl
  starts (ok client) ping = elim (Option-cases (ping client)) [
    | inl up ↦ rw up (both client refl up)
    | inr (e, down) ↦ rw down (no_answer client e refl down)
  ]
