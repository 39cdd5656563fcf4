-- ===== src/Lib.antt =====
-- go-skeleton: a web service template in Go, with an HTTP API, a worker that runs queued tasks, and the
-- packages that both share. This library models the service's own logic and states what it guarantees.
--
-- The parts, by the paths of the repository:
--   Errcode           pkg/errcode: error codes, their catalogue and HTTP statuses
--   Response, Wire    pkg/response: the envelope of every API answer and the functions that write it
--   Auth              pkg/auth/jwt.go: issuing and parsing JSON web tokens
--   Config            config: the settings (Config), reading them from variables (Env, Load), checking
--                     them (Validate)
--   Database          pkg/database: the settings of the pool, the log of the queries
--                     (Tracer)
--   Bootstrap         internal/bootstrap: what a process opens at its start and closes at its end
--   Middleware        internal/middleware: one child for each file; each function takes the rest of the
--                     chain, which `c.Next()` runs, as an argument
--   Metrics           pkg/metrics/metrics.go: the HTTP middleware that counts requests
--   Server.Engine     newEngine of internal/server.go: the order of the middleware round a handler
--   Handler           internal/handler: auth.go, health.go and example.go
--   Task              internal/task: payload headers, task IDs, the example task
--   Service           internal/service/example.go: Create, EnqueueTask, List and
--                     ProcessExample
--   Repository        internal/repository: the inserts and List of example.go, and the transactions of tx.go
--   Worker            internal/worker and internal/worker.go: the delay before a task is run again,
--                     HandleExampleTask, the trace (with pkg/log) and the metrics of tasks,
--                     the readiness probe, NewWorker, Run
--   TaskQueue         internal/taskqueue
--   Server.Process    the other half of internal/server.go and serveAPI of internal/cli/api.go; Server.Queues
--                     is queueNames; Server.Routes the routes, with internal/router/router.go
--   Cli, Ready        internal/cli: the commands of the program, and readyAfter of all.go
--   Scripts           scripts: architecture-verify.go (GoFiles, Architecture), new-endpoint.go
--                     (Endpoint), new-endpoint-check.go (Drift) and mod-upgrade.go (Upgrade)
--   Base              bytes and texts, Go's signed integers, association lists
--
-- How they interact: a request runs through Server.Engine to a route's handler; handlers and middleware
-- answer through Response, with errors of Errcode; the worker runs tasks that Task describes through
-- Service and Repository. A process starts with Config.Load and Bootstrap, whose registry has the manager of
-- tokens that the handlers and the middleware share.
--
-- Conventions. A gin.Context is an abstract type with the operations that the code calls, each
-- described by its effect on a `View` (Gin); a state of the process, such as the limiter's table or the
-- metrics, is carried by the contexts (Gin.State). A handler returns or panics. Times are natural
-- numbers of nanoseconds and the clock is an argument; texts are lists of bytes, a
-- duration of the configuration is an integer. Go's int and int64 are integers, and where a sum or a
-- product may wrap around it is written out (Worker.Retry, Server.Process). Receivers and registries that
-- are nil are left out. Two functions run on fuel: strip of
-- Base.Text, of which the length of the text is enough (Base.Text.Trim), and check_type of
-- Scripts.Architecture, each turn of which adds a name of the table to the names seen, so that one more than
-- the table's length is enough (Scripts.Architecture.Payload). Every other function is structurally recursive.
--
-- Third-party code is a parameter with its documented behaviour as laws: gin (Gin), golang-jwt
-- (Auth.Jwt), golang.org/x/time/rate (RateLibrary), Postgres and the queries of sqlc
-- (Repository.Postgres, Repository.Tx.Transactions, Repository.Listing.Reads), asynq (arguments of Worker
-- and TaskQueue), SHA-256 (an argument of Task), encoding/json (Task.Payload.Json),
-- time.ParseDuration (of Config.Load), go, make and git (Scripts.Upgrade.Tools), opening and pinging
-- dependencies (Bootstrap.World). Modules called Sample and Recording have concrete instances of them.
--
-- Not modelled: writing logs, the text of messages, what third-party code does on its connections,
-- processes and signals, the generated code, and the other development scripts.
pub mod Base
pub mod Errcode
pub mod Model
pub mod Wire
pub mod Gin
pub mod Response
pub mod Auth
pub mod Config
pub mod Middleware
pub mod Metrics
pub mod Task
pub mod TaskQueue
pub mod Repository
pub mod Service
pub mod Worker
pub mod Handler
pub mod Database
pub mod Bootstrap
pub mod Server
pub mod Ready
pub mod Cli
pub mod Scripts
