-- ===== src/Lib.antt =====
-- btrfs-snapah-pow: a server that keeps nodes, snapshots and policies in a database, runs `btrfs`
-- on a schedule, replicates snapshots to other nodes, watches the nodes and sends alerts; its HTTP
-- API is behind a rate limiter, tokens and API keys, and its events go out over WebSockets.
--
-- The parts and their files, with paths from the repository's root:
--   RateLimit   internal/ratelimit/ratelimit.go: `allow` is Allow, `sweep` the goroutine of New,
--               `middleware` the handler around another one.
--   Auth        internal/auth/auth.go: `generate`, `validate` and `middleware` of the token manager;
--               Auth.Users is internal/auth/users.go; Auth.Identity says who a request comes from.
--   ApiKeys     internal/apikeys/apikeys.go and middleware.go, over Storage and Auth.
--   Storage     internal/storage/models.go (Storage.Models) and db.go (Storage.Db).
--   Alerts      internal/alerts/alerts.go, in Alerts, Alerts.Message and Alerts.Email; Alerts.Watchdog
--               is internal/alerts/watchdog.go, over Storage.
--   Btrfs       internal/btrfs/btrfs.go: the commands and the parser of a listing.
--   Scheduler   internal/scheduler/scheduler.go: the policies, their cron entries and the retention,
--               over Btrfs.
--   Replication internal/replication/replication.go, over Btrfs and Storage.
--   Hub         internal/hub/hub.go: the clients' queues; Hub.Connections is one connection of
--               ServeWS with its three goroutines.
--   Config      internal/config/config.go: `load` is Load.
--   Server      cmd/server/main.go, over all of these: Server.Grpc has the methods of gRPC,
--               Server.Handlers and Server.Admin the handlers of the HTTP API, Server.Routes the mux
--               with its middlewares (`serve`), Server.Start what newServer and main set up;
--               Server.Runs is a run of the server, whose goroutines are steps of their own.
--   Agent       cmd/agent/main.go: the settings, the registration and the heartbeats (`run`);
--               Agent.Heartbeats counts them; Agent.Security puts it beside Server.
--   Cli         cmd/cli/main.go: the state machine of Update; an answer of the server is a message,
--               which Cli.Fetch makes (`fetched`, `do_login`); Cli.Views is View.
--   Tls         internal/tlsconfig/tls.go: the configurations of the server and the agent.
-- Base has maps, results, tests and 64-bit integers; Http requests, headers and answers; Strings
-- and FilePath what is used of Go's packages of these names; an answer that sends its header without
-- a content type gets the one that `net/http` finds for text. The functions keep the source's names
-- in snake case. A method takes its receiver's state as an argument and returns the new one; a
-- pair (value, error) is a Result. A mutex makes its section one step: what interleaves is a list
-- of steps (Event in RateLimit.Sweep, the rounds of `watch`, Step in Hub). A method that reads the
-- clock more than once takes each reading as an argument. Where objects are shared by pointer (the
-- jobs of Replication) they stand in a memory at addresses.
--
-- Parameters, for code that is not in the repository: the ORM (Storage.Gorm, its laws in
-- Storage.Laws, met by Storage.Memory), the JWT library (Auth.Jwt, JwtLaws), bcrypt, SHA-256 and
-- the calendar (ApiKeys.Crypto), the cron library (Scheduler.Cron, Scheduler.Policies.CronLaws),
-- the `btrfs` command (Btrfs.Exec), mail and HTTP (Alerts.Outside), the remote manager
-- (Replication.Target), the widgets and styles of the terminal (Cli.Widgets, Cli.Views.Styles), its
-- HTTP client (Cli.Fetch.Web), the agent's gRPC client (Agent.Client), viper (Config.Viper, its laws
-- in Config.Defaults), JSON (the decoders and encoders of Server.Types), and files and certificates
-- (Tls.Files). Their laws are documented behaviour, and each is met by a concrete instance in a
-- module Examples, Demo or Listed.
--
-- The times that the ORM fills in (created_at, updated_at) are left at zero where a row is made; an
-- update of a node moves its updated_at in the laws of Storage.Laws.
-- A request with all that its handler calls, and a call of gRPC, is one step of Server.Runs, although
-- the handlers of two requests may interleave and the maps of the scheduler have no lock; only a
-- replication, whose goroutine runs beside the requests, begins and ends in two steps.
-- Integers are natural numbers, with the wrap-around of Go's 64-bit `int` written out in Base.Int;
-- a theorem that needs a count below 2 ^ 63 says so. Times are nanoseconds. No function runs on
-- fuel: every loop is a structural recursion over a list or a text.
--
-- Not modelled: logging; the colours and widths of the terminal client; the metrics
-- (internal/metrics), which only declare counters: those that the server sets are fields of its
-- state; the code that protoc generates (api/proto); the static files; the tickers, listeners,
-- channels and connections that only start and stop the modelled steps.
pub mod Alerts
pub mod ApiKeys
pub mod Auth
pub mod Base
pub mod Btrfs
pub mod Cli
pub mod FilePath
pub mod Http
pub mod Hub
pub mod RateLimit
pub mod Replication
pub mod Scheduler
pub mod Config
pub mod Agent
pub mod Server
pub mod Storage
pub mod Strings
pub mod Tls
