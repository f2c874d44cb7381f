-- ===== src/Lib.antt =====
-- GoAttend records attendance: a device checks a user in over HTTP, the event is stored in Postgres and
-- its id is queued, and a worker asks a face recognition service about the image of the event and records
-- the answer. A second, simpler server under newGoAttend/backend keeps students in SQLite and marks their
-- attendance by a photo. This library models the Go code of the API server, the worker, the packages they
-- share, and the second server.
--
-- The parts, each with the code that it models:
--   Common      shared names: Boolean tests on native numbers, lists measured by them, signed integers,
--               function maps, and Result for the pair (T, error), of which `nil` is `ok`. Common/Sql is
--               one SQL statement, keys and references; Common/Newest is ORDER BY a time DESC; Common/Web
--               is a network to which multipart forms are posted.
--   RateLimit   internal/httpmiddleware/ratelimit.go. SimpleTokenBucket holds a bucket for each client
--               address; `allow` is SimpleTokenBucket.allow, `gin_middleware` the handler. Numbers of type
--               int wrap at 64 bits; the float64 operations of the refill are a parameter. Their rounding
--               is bounded closely for products up to 2 ^ 50, and to a factor of two on any clock of an
--               int64 and for rates up to 2 ^ 30.
--   Queue       internal/queue/queue.go. `serialize` and `deserialize` are the wire form Type|Body;
--               `publish` and `consume` are RedisQueue.Publish and RedisQueue.Consume over a Redis server
--               that is a parameter with the documented laws of LPUSH and BRPOP; Queue/InMemory is the
--               channel of InMemory as a step relation of senders, the goroutine and the receiver.
--   Attendance  internal/attendance/repo.go and service.go, with migrations/*.up.sql. Attendance/Tables
--               has the tables as lists of rows, the newest first. Events and Employees have one function
--               for each statement of Repository; a statement may be refused by a key or a reference, and
--               a call may fail by an error of the driver, after which nothing has been executed. Query
--               has the query that ListEvents builds, its text and what it selects. Service has
--               Service.RegisterDevice and Service.CheckIn, with the answers of the clock and of
--               uuid.NewString as arguments. CheckIn is two statements without a transaction:
--               `check_in_between` has the tables that each of them finds, and `check_in` is the case that
--               no other request comes between.
--   Face        internal/faceclient/client.go. The operations of Client over the state of a network;
--               encoding/json and net/http are the record Net.
--   Worker      cmd/worker/main.go. `process` is one round of the loop over the messages, `run` the loop;
--               `choose_queue` is the choice of the queue.
--   Auth        internal/auth/jwt.go and middleware.go. `issue`, `parse` and `device_auth` are Issue,
--               Parse and DeviceAuth; golang-jwt is the record Jwt, and JwtLaws is what is assumed of it.
--               The functions of package strings that the header goes through are written out.
--   Api         cmd/api/main.go. One function for each handler, from the bound request to the status and
--               the body of the answer; `guarded` is the group of routes behind DeviceAuth. Api/Number is
--               strconv.Atoi, Api/Headers the two middlewares of the file, Api/Upload the upload handler.
--               Api/Server is the server of runHTTP: `start` and `new_limiter` are what it makes of the
--               settings, `handle` is a request on its way through corsMiddleware, the limiter and the
--               handler of its route, and `run` a list of requests.
--   Cloudinary  internal/cloudinary/client.go: `sign` is Client.sign over the entries of the map in the
--               order that Go takes, `upload_params` and `signed_params` are the fields of an upload.
--               Cloudinary/Upload has Client.UploadBase64 and Client.UploadBytes.
--   System      cmd/api/main.go and cmd/worker/main.go as steps in any order: a request to the API as a
--               whole, a single statement of the repository, a check-in that has stored or found its event,
--               its publication, a round of the consumer of the queue, and a round of the worker's loop.
--   Settings    internal/config/config.go. `load` is Load and `get_env`, `duration_env`, `bool_env` and
--               `int_env` its readers. Settings/Number and Settings/Duration write out what fmt.Sscanf with
--               %d and time.ParseDuration of Go's library do on a text; the float64 product of a fraction
--               is a parameter.
--   Simple      newGoAttend/backend. Simple/Store is internal/store and internal/model, one function for
--               each statement; Simple/Clients is internal/faceclient and internal/cloudinary, Simple/Handler
--               is internal/handler, Simple/Number what strconv.Atoi returns beside an error, and
--               Simple/Program is internal/config and the start and routes of cmd/server/main.go.
--   Connections internal/store/db.go and redis.go, and how cmd/api/main.go and cmd/worker/main.go start.
-- They interact as in the code: Api calls Auth, Attendance, Cloudinary and the queue, and Worker calls
-- Attendance and Face. Api/Journey is about registration and check-in together, System about both programs.
--
-- Bounds and fuel: `itoa_rounds` and `terms` run on fuel. For the digits of i, i + 1 rounds are enough; for
-- the terms of a duration, as many rounds as the text has characters and one more, since each term takes at
-- least one character. All other loops are structural over a list or a text.
-- The stretches of time of the limiter are bounded by 2 ^ 49 for the rate times the nanoseconds, so that
-- the rounding of a float64 stays below one: 78 minutes at 120 requests a minute. A longer stretch is
-- several, each from the state that the one before leaves.
--
-- Conventions: a time is a number of nanoseconds, of which 0 is the zero time; a float64 is the number of
-- its bits, which the code only passes on or compares with 0. A Go string is a text of Unicode characters,
-- so bytes that are not valid UTF-8 do not occur. A table is ordered from new to old, which fixes the
-- order of rows with equal times that SQL leaves open. Postgres keeps times to the microsecond and checks
-- the spelling of a UUID; the model does neither. SQLite checks references only where foreign_keys is on,
-- which is a field of the store. A request has the answers of the clock, of uuid and of the database as
-- arguments. A handler takes effect as a whole; System also has its statements and commands as steps of
-- their own, which those of other requests can come between.
--
-- Not modelled: the opening of the SQLite file, which is I/O, and the options of the connections; the
-- shutdown of the programs, metrics, logging, static files and the CORS middleware of gin-contrib; the
-- Python face service and the web pages, which are not Go.
pub mod Common
pub mod RateLimit
pub mod Queue
pub mod Attendance
pub mod Face
pub mod Worker
pub mod Auth
pub mod Api
pub mod Cloudinary
pub mod System
pub mod Settings
pub mod Simple
pub mod Connections
