-- ===== src/Lib.antt =====
-- A model of the community waste collection service: a Go service over PostgreSQL and an S3
-- bucket, in which households book pickups of waste, pickups are scheduled and completed, each
-- completion is charged for, and payments are confirmed with an uploaded proof.
--
-- The parts. The services of internal/service check the business rules BR-01 to BR-06 and call
-- the repositories of internal/repository, whose single SQL statements are conditional on the
-- status of a row; Complete runs two of them in one transaction. Confirm stores its proof through
-- internal/storage/s3.go. The worker of internal/worker/organic_canceler.go cancels expired
-- organic pickups beside the requests. No part holds a lock: all meet in the tables.
--
-- The files.
--
--   Base: shared names, Boolean tests, lists measured by native numbers.
--
--   Table: what a SELECT, an UPDATE, an INSERT and a DELETE mean on a list of rows with unique
--     keys, newest first. A query is translated into a test on rows and a change of rows.
--
--   Domain: internal/domain, one child for each file. An error is its sentinel.
--
--   Database: the tables as a record `Db`, and `Action`, a function of the surroundings and of
--     the world that answers a value or an error. Database.Integrity has the invariant of the
--     tables, and what may become of a row.
--
--   Repository: internal/repository, one child for each file, one definition for each method and
--     one for its SQL, with the constraints of migrations/.
--
--   Storage: internal/storage/s3.go, the bucket as a list of objects.
--
--   Service: internal/service, one child for each file, a method as a do block in the order of
--     its calls.
--
--   Worker: internal/worker/organic_canceler.go.
--
--   Repository.Lists, Repository.Reports, Repository.Connection: the List methods and the reports
--     of internal/repository, and its db.go.
--
--   Strconv: what the program uses of Go's strconv, Atoi and Itoa.
--
--   Config: internal/config/config.go. Load reads a function from names to texts.
--
--   Handler: internal/handler. Responses and Handling are its envelopes and its early returns,
--     Requests what is asked of other packages, Paging, Filters, Validation and Proofs what
--     stands before a service, then one module of handlers for each file, and Routes for
--     RegisterRoutes. Handler.Between has rules for what the requests do to the tables.
--
--   Middleware: the other files of internal/middleware, in the order of cmd/api/main.go, and
--     echoErrorHandler. What stands behind them is a function from a state to a reply.
--
--   RateLimit: internal/middleware/ratelimit.go, the map of clients and its sweeps; the token
--     bucket is a parameter.
--
--   Server: buildHTTPServer of cmd/api/main.go with the middleware of each route: requests one
--     after another, from their arrival to the tables, the limiter, the counters, the log and the
--     clients, with sweeps and cycles of the worker between them.
--
--   RouteExtract: cmd/route-extract/main.go.
--
--   Observability: internal/observability/logger.go and tracer.go, what a logger and a tracer are
--     made with.
--
--   Main: cmd/api/main.go, its start and its shutdown as events at times. Main.Wiring is what its
--     parts are made with.
--
--   System: commands, and runs of them from empty tables.
--
--   Tests: concrete runs, and the theorems at them.
--
-- Faults and other sessions. The n-th call of a session meets the n-th turn of its surroundings:
-- first the other sessions change the tables, then the call is delivered, refused without effect,
-- or takes effect while its reply is lost. Time, uuid.New() and S3 calls take a turn too. A
-- transaction is one turn: its row locks keep others from the rows that it has read, and every
-- fault of its round trips is ErrInternalFailure to the caller. Theorems over any surroundings
-- assume that the others' changes are legal (`Rely`); System.Sessions is about sessions that run
-- the program itself, nested in each other's turns; that the statements of two commands cross is
-- not among them.
--
-- What stands for what. A UUID is a number; gen_random_uuid() is a supply that never repeats. A
-- time is in nanoseconds, an amount in cents; the times that a caller gives to an UPDATE are
-- stored in whole microseconds, as TIMESTAMPTZ keeps them, and those that the database takes from
-- its own clock are as the clock has them. In which order a SELECT finds rows that its ORDER BY
-- leaves open is given by the turn. Statuses and waste types are enumerations, as the validator
-- and the database's enums restrict them. The amount that a client sends is of a type that nobody
-- looks into. Page numbers and sizes are natural numbers: paginationParams refuses others, and
-- the defaults of the repositories treat negative ones like 0; the product of the two is cut to
-- 64 bits, and PostgreSQL refuses a negative one as an OFFSET. Object keys and URLs are the parts
-- that the code formats into them. The loop of the worker is a number of ticks, which stands for
-- the moment of its cancellation; everything else is total without fuel.
--
-- Requests. A handler reads the path, the query string and the body of a request, calls a
-- service, and gives one response; a response is its status, its error code and its data. What
-- decodes bodies and texts (c.Bind, uuid.Parse, time.Parse, FormFile, DetectContentType, the
-- built-in tags of the validator) is the record Packages, any value of which will do. The router
-- of echo is left out: a request comes with its endpoint, or at the server with the error of
-- none.
--
-- Processes. The start of cmd/api/main.go meets an Outside, which says which calls succeed,
-- whether the metrics server can listen, when the signal comes and how long each party takes to
-- end, if it ever does.
--
-- Not modelled: spans, logs, latency histograms and the counters of database errors; contexts,
-- whose timeouts are faults; panics of the services and the worker, and those of a handler in the
-- midst of its calls: at the server a handler may panic before or after its service; the JSON
-- form of values; the messages of errors; net/url and the drivers behind the connections;
-- MustConnect of internal/repository/db.go, which only tests call; CORS, the security headers and
-- the body limit of echo. The bucket is not listed by any code, so only keys matter there.
pub mod Base
pub mod Strconv
pub mod Table
pub mod Domain
pub mod Database
pub mod Repository
pub mod Storage
pub mod Config
pub mod Handler
pub mod Middleware
pub mod RateLimit
pub mod Server
pub mod Service
pub mod Worker
pub mod System
pub mod RouteExtract
pub mod Observability
pub mod Main
pub mod Tests
