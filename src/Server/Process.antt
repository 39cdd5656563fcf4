-- ===== src/Server/Process.antt =====
-- The API process: NewServer, Run, Shutdown and Close of internal/server.go, and serveAPI of
-- internal/cli/api.go. What the calls of net, net/http and the metrics' collector give are arguments,
-- and so is what ends the process; each call with an effect stands in a list, in their order.
pub mod Shutdown
pub mod Stopping
pub mod Limits
use go_skeleton.Base.{
  ℕ, ◌+◌, ◌*◌, ◌%◌, ◌^◌, String, Bool, true, false, not, ◌&&◌, Option, none, some, List, [], ◌∷◌,
  ◌++◌, if◌then◌else◌,
}
use go_skeleton.Base.Int.{ℤ, pos, leb_ℤ, ltb_ℤ, second, signed64}
use go_skeleton.Base.Text.{Bytes, is_empty, trim}
use go_skeleton.Config.{Config}
use go_skeleton.Bootstrap.{Registry}
use go_skeleton.Worker.Retry.{word64}

-- The settings of an http.Server.
pub record HttpServer : Type 0 where
  pub addr : Bytes
  pub read_header_timeout : ℤ
  pub read_timeout : ℤ
  pub write_timeout : ℤ
  pub idle_timeout : ℤ
  pub max_header_bytes : ℕ

-- The sum of two int64.
unfoldable pub add64 : ℤ → ℤ → ℤ
add64 a b = signed64 ((word64 a + word64 b) % 2 ^ 64)

unfoldable pub new_http_server : Config → HttpServer
unfolding add64
new_http_server cfg =
    let req_timeout =
      if leb_ℤ cfg.server.request_timeout (pos 0)
      then pos (30 * second)
      else cfg.server.request_timeout in
    record {
      addr = cfg.server.port;
      read_header_timeout = pos (10 * second);
      read_timeout = add64 req_timeout (pos (5 * second));
      write_timeout = add64 req_timeout (pos (5 * second));
      idle_timeout = pos (60 * second);
      max_header_bytes = 2 ^ 20;
    }

unfoldable pub new_metrics_server : Bytes → HttpServer
new_metrics_server addr = record {
  addr = addr;
  read_header_timeout = pos (5 * second);
  read_timeout = pos (10 * second);
  write_timeout = pos (10 * second);
  idle_timeout = pos (30 * second);
  max_header_bytes = 2 ^ 14;
}

-- What of a Server runs beside the handlers: the limiter's sweep, the collector of the queues, and the
-- listener of the metrics.
pub record Server : Type 0 where
  pub http : HttpServer
  pub metrics_http : Option HttpServer
  pub rate_limiter : Bool
  pub metrics_collect : Bool

-- NewServer with a registry of InitAPI, whose engine newEngine builds.
unfoldable pub new_server : Config → Registry → Server
unfolding new_http_server new_metrics_server
new_server cfg reg = record {
  http = new_http_server cfg;
  metrics_http =
      if cfg.server.metrics_enabled && not (is_empty (trim cfg.server.metrics_addr))
      then some (new_metrics_server cfg.server.metrics_addr)
      else none;
  rate_limiter = ltb_ℤ (pos 0) cfg.rate_limit.requests_per_minute;
  metrics_collect = cfg.server.metrics_enabled && reg.queue_inspector;
}

pub data Call : Type 0 where
  listen listen_metrics close_listener serve_metrics on_ready serve : Call
  stop_limiter stop_collector shutdown_metrics shutdown_http close_metrics close_http : Call
  start_draining sleep start_pprof shutdown_pprof : Call

pub data ServerError : Type 0 where
  listen_failed listen_metrics_failed serve_failed shutdown_failed close_failed :
      String → ServerError
  exit_timeout : ServerError

-- How Serve ends: http.ErrServerClosed, or nil, is the normal end.
abbrev pub Served : Type 0
Served = Option String

abbrev serving : Bool → Served → List Call × Option ServerError
serving true none = (on_ready ∷ serve ∷ [], none)
serving true (some message) = (on_ready ∷ serve ∷ [], some (serve_failed message))
serving false none = (serve ∷ [], none)
serving false (some message) = (serve ∷ [], some (serve_failed message))

abbrev after_listen :
    Option HttpServer
    → Option String
    → List Call × Option ServerError
    → List Call × Option ServerError
after_listen none failure (calls, e) = (calls, e)
after_listen (some m) none (calls, e) = (listen_metrics ∷ serve_metrics ∷ calls, e)
after_listen (some m) (some message) next =
    (listen_metrics ∷ close_listener ∷ [], some (listen_metrics_failed message))

abbrev listened : Option String → List Call × Option ServerError → List Call × Option ServerError
listened none (calls, e) = (listen ∷ calls, e)
listened (some message) next = (listen ∷ [], some (listen_failed message))

-- (*Server).Run: what binding the two ports gives, whether onReady is not nil, and how Serve ends.
unfoldable pub run :
    Server → Bool → Option String → Option String → Served → List Call × Option ServerError
run s ready listen_failure metrics_failure served =
    listened listen_failure (after_listen s.metrics_http metrics_failure (serving ready served))

abbrev pub call_if : Bool → Call → List Call
call_if true c = c ∷ []
call_if false c = []

abbrev pub is_some : Option HttpServer → Bool
is_some none = false
is_some (some m) = true

-- (*Server).Shutdown: an error of the metrics' listener is only logged.
unfoldable pub shutdown : Server → Option String → List Call × Option ServerError
shutdown s failure = (
  call_if s.rate_limiter stop_limiter
      ++ (call_if s.metrics_collect stop_collector
          ++ (call_if (is_some s.metrics_http) shutdown_metrics ++ (shutdown_http ∷ []))),
  elim failure [ none ↦ none | some message ↦ some (shutdown_failed message) ],
)

-- (*Server).Close: `failure` is an error of closing the port other than http.ErrServerClosed.
unfoldable pub close : Server → Option String → List Call × Option ServerError
close s failure = (
  call_if s.rate_limiter stop_limiter
      ++ (call_if s.metrics_collect stop_collector
          ++ (call_if (is_some s.metrics_http) close_metrics ++ (close_http ∷ []))),
  elim failure [ none ↦ none | some message ↦ some (close_failed message) ],
)

-- shutdownWebServer: Close where Shutdown failed, then the wait for the end of Run, `exit`, which has come
-- with an error or without one, or does not come in time.
unfoldable pub shutdown_web_server :
    Server
    → Option String
    → Option String
    → Option (Option ServerError)
    → List Call × Option ServerError
unfolding shutdown close
shutdown_web_server s none close_failure none = ((shutdown s none).0, some exit_timeout)
shutdown_web_server s none close_failure (some e) = ((shutdown s none).0, e)
shutdown_web_server s (some message) close_failure none =
    ((shutdown s (some message)).0 ++ (close s close_failure).0, some exit_timeout)
shutdown_web_server s (some message) close_failure (some e) =
    ((shutdown s (some message)).0 ++ (close s close_failure).0, e)

-- The part of serveAPI after the server of pprof is started: `ended` is the end of Run, if it comes before
-- the context is done. The error of the shutdown is only logged.
abbrev pub served_until :
    Config
    → Server
    → Option (Option ServerError)
    → Option String
    → Option String
    → Option (Option ServerError)
    → List Call × Option ServerError
served_until cfg s (some e) shutdown_failure close_failure exit = ([], e)
served_until cfg s none shutdown_failure close_failure exit = (
  start_draining
      ∷ (call_if (ltb_ℤ (pos 0) cfg.server.graceful_drain) sleep
          ++ (shutdown_web_server s shutdown_failure close_failure exit).0),
  none,
)

-- What starts and, by its defer, ends the server of pprof.
abbrev pub with_pprof : Bool → List Call × Option ServerError → List Call × Option ServerError
with_pprof enabled (calls, e) =
    (call_if enabled start_pprof ++ (calls ++ call_if enabled shutdown_pprof), e)

-- serveAPI. An error of the server of pprof is only logged.
unfoldable pub serve_api :
    Config
    → Server
    → Option (Option ServerError)
    → Option String
    → Option String
    → Option (Option ServerError)
    → List Call × Option ServerError
unfolding shutdown_web_server
serve_api cfg s ended shutdown_failure close_failure exit =
    with_pprof cfg.server.pprof_enabled
      (served_until cfg s ended shutdown_failure close_failure exit)
