-- ===== src/Lib.antt =====
-- WalletOps: the service behind the API.
--
-- The program is a Go service under api/. A partner delivers signed events to a webhook; each becomes
-- a row of the Postgres table `events`. Workers claim the rows one by one, match each against the
-- alert rules of its user and mark it processed, or failed and to be tried again. Users register and
-- sign in, for a short-lived access token and a refresh token that can be exchanged once; over a JSON
-- API they keep their rules, read their events, simulate deliveries, and ask for a summary of events,
-- which a language model or a mock of it writes. Postgres is the only state that requests and workers
-- share; they interact through it alone.
--
-- Which file models what:
--   Text, Json      what the program uses of `strings`, `utf8` and `encoding/json`; Text/Decimal is
--                   what it uses of `strconv`, Text/Joining `strings.Join`
--   Sorting, Sorting/Texts
--                   sorting by a total order, and sort.Strings
--   Http            api/internal/httpapi/respond.go, and the user that the middleware puts into the
--                   context of a request; Http/Health is api/internal/httpapi/health.go, Http/Replied
--                   what holds of a handler that replied with a value
--   Db              the tables of api/migrations; statements; how the client runs them. Db/Sql is the
--                   part of SQL that is used, Db/Exec a method that issues statements, Db/WellFormed
--                   and Db/History what holds of the tables at all times and over time
--   Db/Migrate      api/internal/db/migrate.go
--   Events/Types, Events/Store, Events/Queue, Events/Reads
--                   api/internal/events/store.go and errors.go: UserIDByRef, SetUserRef,
--                   CreatePending and GetByIdempotency; ClaimNextWithLease, ClaimNext, ClaimByID,
--                   MarkProcessed and MarkAttemptFailed; the lists, lookups and QueueStats
--   Events/Handler  api/internal/events/handler.go
--   Rules/Types, Rules/Store, Rules/Validate, Rules/Handler
--                   api/internal/rules: store.go, validate.go and handler.go
--   Auth/Store      api/internal/auth/store.go and errors.go: users, and refresh tokens by their hashes.
--                   Auth/Store/Locking has the exchange of a token by many requests at once, with the
--                   lock that SELECT … FOR UPDATE takes
--   Auth/Tokens, Auth/Middleware, Auth/Handler
--                   api/internal/auth: tokens.go, middleware.go and handler.go (Register, Login,
--                   Refresh and Me)
--   Worker, Worker/Counters
--                   api/internal/worker: worker.go and stats.go. `Runs` is Run, which does not end by
--                   itself: the states after its ticks
--   Webhook/Hmac, Webhook/Handler
--                   api/internal/webhook: hmac.go and handler.go
--   Config          api/internal/config/config.go
--   Demo            api/internal/demo/handler.go
--   Ai/Schema, Ai/Ids, Ai/Prompt, Ai/Providers, Ai/Store, Ai/Handler
--                   api/internal/ai: schema.go; normalizeIDs and requestHash of handler.go; prompt.go;
--                   mock.go, openai.go and provider.go; store.go; Summarize of handler.go
--   Server, Server/Mux
--                   api/cmd/server/main.go: the routes, which of them ask for a user, and the handlers
--   System          the running service as a transition system: its steps are the statements that
--                   write, in whatever order the database takes them; System/Program is the program
--                   as requests to the server and rounds of the worker
--   Samples, and modules called Samples or Tests
--                   sample rows and values, and the program run on them
--
-- A Go function has the name of its definition here in snake case; a column or a field has its own.
-- A statement (`Sql`) takes the moment at which it runs and the tables, and answers with a result and
-- the tables after it, or with an error and then changes nothing. A method (`Exec`) issues statements
-- in turn; statement n of a world meets the fault that its environment gives n: it is served, refused,
-- or served with the answer lost. So a theorem over all environments covers every failure of the
-- connection, and one over `Reach` covers every interleaving of requests and workers.
--
-- What is taken as given: `now()`, `gen_random_uuid()` and the rows that other transactions lock come
-- from the environment, as does the reading of a text as a uuid; HMAC-SHA256 and SHA-256, the decoding
-- of a request's body, the HTTP client of a language model with the texts that it sends and receives,
-- the writing of a uuid, the texts of wrapped errors, and what a request draws from the clock and from
-- the source of randomness are parameters; the package jwt is the record `Jwt` with the laws
-- `JwtLaws`, bcrypt is a part of `Crypto`, with the law `CryptoLaws` where a theorem needs it; an id is
-- the number of its uuid; a time is a number of microseconds; a float64 is a sign and a magnitude, and
-- JSON gives no infinite one; rows received at the same time come in the order of their insertion.
-- Each statement is atomic, as one statement on its own is; a transaction, which exchanges a refresh
-- token or records a migration, takes effect at its COMMIT. That Postgres keeps a row locked from its
-- SELECT … FOR UPDATE to the end of the transaction is taken as documented; elsewhere than in
-- Auth/Store/Locking the exchange of a token runs alone.
--
-- Bounds: the loop of a tick has the 20 rounds that worker.go gives it and the simulation the rounds
-- that its request asks for, so neither needs fuel; the digits of a number are put out with the fuel of
-- twenty, which is enough for every number below 10 ^ 20 (`decimal-scan`) and so for every int64; all
-- other recursion is on a list or a text. A counter of the worker wraps around at 2 ^ 64 as an int64
-- does, and so does the delay of the configuration in nanoseconds.
--
-- Not modelled: logging; signals, listening and shutdown in api/cmd/server; the indexes of the schema;
-- the scripts and the mobile application. A text with a NUL character, which Postgres refuses, is not
-- set apart.
pub mod Prelude
pub mod Sorting
pub mod Text
pub mod Json
pub mod Http
pub mod Events
pub mod Rules
pub mod Db
pub mod Auth
pub mod Worker
pub mod Webhook
pub mod Config
pub mod Demo
pub mod Ai
pub mod Server
pub mod System
pub mod Samples
