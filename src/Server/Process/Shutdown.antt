-- ===== src/Server/Process/Shutdown.antt =====
-- What shutdownWebServer stops.
use go_skeleton.Base.{
  ℕ, String, ◌≡◌, ◌≢◌, ◌↔◌, refl, sym, Bool, true, false, ◌||◌, Option, none, some, List, [], ◌∷◌,
  ◌++◌, append-nil, ◌==◌, if◌then◌else◌,
}
use go_skeleton.Server.Process.{
  Server, Call, listen, listen_metrics, close_listener, serve_metrics, on_ready, serve,
  stop_limiter, stop_collector, shutdown_metrics, shutdown_http, close_metrics, close_http,
  start_draining, sleep, start_pprof, shutdown_pprof, ServerError, shutdown, close,
  shutdown_web_server, call_if, is_some,
}

-- The calls by their numbers.
abbrev pub number_of : Call → ℕ
number_of listen = 0
number_of listen_metrics = 1
number_of close_listener = 2
number_of serve_metrics = 3
number_of on_ready = 4
number_of serve = 5
number_of stop_limiter = 6
number_of stop_collector = 7
number_of shutdown_metrics = 8
number_of shutdown_http = 9
number_of close_metrics = 10
number_of close_http = 11
number_of start_draining = 12
number_of sleep = 13
number_of start_pprof = 14
number_of shutdown_pprof = 15

-- Whether a call is made.
abbrev pub makes : Call → List Call → Bool
makes c [] = false
makes c (d ∷ ds) = (number_of c == number_of d) || makes c ds

-- No `d` is made before a `c`.
abbrev pub awaits : Call → Call → List Call → Bool
awaits c d [] = true
awaits c d (x ∷ xs) =
    let rest = awaits c d xs in
    if number_of c == number_of x then true else if number_of d == number_of x then false else rest

-- The calls that stop something.
abbrev pub stops : List Call
stops =
    stop_limiter ∷ stop_collector ∷ shutdown_metrics ∷ shutdown_http ∷ close_metrics ∷ close_http
    ∷ shutdown_pprof ∷ []

-- All that runs beside the handlers is stopped, where it runs, and the port is closed; by force exactly if
-- the graceful way failed, and after it.
pub record Stops (s : Server) (failure : Option String) (calls : List Call) : Type 0 where
  pub limiter : makes stop_limiter calls ≡ s.rate_limiter
  pub collector : makes stop_collector calls ≡ s.metrics_collect
  pub metrics : makes shutdown_metrics calls ≡ is_some s.metrics_http
  pub gracefully : makes shutdown_http calls ≡ true
  pub by_force : (makes close_http calls ≡ true) ↔ (failure ≢ none)
  pub in_turn : awaits shutdown_http close_http calls ≡ true

pub makes-append : (c : Call) (ds es : List Call) → makes c (ds ++ es) ≡ (makes c ds || makes c es)
makes-append c [] es = refl
makes-append c (d ∷ ds) es =
    by_first (number_of c == number_of d) (makes c (ds ++ es)) (makes c ds) (makes c es)
      (makes-append c ds es)
  where
    by_first : (b p q r : Bool) → p ≡ (q || r) → (b || p) ≡ ((b || q) || r)
    by_first true p q r e = refl
    by_first false p q r e = e

-- The calls of Shutdown, and of Close, by what there is to stop.
abbrev stopping : Bool → Bool → Bool → Call → Call → List Call
stopping l k m of_metrics of_http =
    call_if l stop_limiter ++ (call_if k stop_collector ++ (call_if m of_metrics ++ (of_http ∷ [])))

abbrev graceful : Server → List Call
graceful s =
    stopping s.rate_limiter s.metrics_collect (is_some s.metrics_http) shutdown_metrics
      shutdown_http

shutdown_made :
    (l k m : Bool)
    → let calls = stopping l k m shutdown_metrics shutdown_http in
      (makes stop_limiter calls ≡ l)
      × (makes stop_collector calls ≡ k)
      × (makes shutdown_metrics calls ≡ m)
      × (makes shutdown_http calls ≡ true)
      × (makes close_http calls ≡ false)
      × (makes sleep calls ≡ false)
      × (makes shutdown_pprof calls ≡ false)
shutdown_made true true true = (refl, refl, refl, refl, refl, refl, refl)
shutdown_made true true false = (refl, refl, refl, refl, refl, refl, refl)
shutdown_made true false true = (refl, refl, refl, refl, refl, refl, refl)
shutdown_made true false false = (refl, refl, refl, refl, refl, refl, refl)
shutdown_made false true true = (refl, refl, refl, refl, refl, refl, refl)
shutdown_made false true false = (refl, refl, refl, refl, refl, refl, refl)
shutdown_made false false true = (refl, refl, refl, refl, refl, refl, refl)
shutdown_made false false false = (refl, refl, refl, refl, refl, refl, refl)

close_made :
    (l k m : Bool)
    → let calls = stopping l k m close_metrics close_http in
      (makes stop_limiter calls ≡ l)
      × (makes stop_collector calls ≡ k)
      × (makes shutdown_metrics calls ≡ false)
      × (makes close_http calls ≡ true)
      × (makes sleep calls ≡ false)
      × (makes shutdown_pprof calls ≡ false)
close_made true true true = (refl, refl, refl, refl, refl, refl)
close_made true true false = (refl, refl, refl, refl, refl, refl)
close_made true false true = (refl, refl, refl, refl, refl, refl)
close_made true false false = (refl, refl, refl, refl, refl, refl)
close_made false true true = (refl, refl, refl, refl, refl, refl)
close_made false true false = (refl, refl, refl, refl, refl, refl)
close_made false false true = (refl, refl, refl, refl, refl, refl)
close_made false false false = (refl, refl, refl, refl, refl, refl)

-- The end of Run changes no call.
calls_of :
    (s : Server) (failure close_failure : Option String) (exit : Option (Option ServerError))
    → (shutdown_web_server s failure close_failure exit).0
      ≡ (shutdown s failure).0
        ++ elim failure [ none ↦ [] | some message ↦ (close s close_failure).0 ]
unfolding shutdown_web_server
calls_of s none c none = sym (append-nil (shutdown s none).0)
calls_of s none c (some e) = sym (append-nil (shutdown s none).0)
calls_of s (some message) c none = refl
calls_of s (some message) c (some e) = refl

both : (b : Bool) → (b || b) ≡ b
both true = refl
both false = refl

pub either_false : (b : Bool) → (b || false) ≡ b
either_false true = refl
either_false false = refl

awaits-append :
    (l k m : Bool) (es : List Call)
    → awaits shutdown_http close_http (stopping l k m shutdown_metrics shutdown_http ++ es) ≡ true
awaits-append true true true es = refl
awaits-append true true false es = refl
awaits-append true false true es = refl
awaits-append true false false es = refl
awaits-append false true true es = refl
awaits-append false true false es = refl
awaits-append false false true es = refl
awaits-append false false false es = refl

-- What the shutdown of the web server stops, and that it neither sleeps nor stops the server of pprof.
pub record Ends (s : Server) (failure : Option String) (calls : List Call) : Type 0 where
  pub own : Stops s failure calls
  pub awake : makes sleep calls ≡ false
  pub apart : makes shutdown_pprof calls ≡ false

pub shutdown_web_server-Ends :
    (s : Server) (failure close_failure : Option String) (exit : Option (Option ServerError))
    → Ends s failure (shutdown_web_server s failure close_failure exit).0
unfolding shutdown close
shutdown_web_server-Ends s none c exit =
    let (l, k, m, h, f, z, q) =
      shutdown_made s.rate_limiter s.metrics_collect (is_some s.metrics_http) in
    let turn = awaits-append s.rate_limiter s.metrics_collect (is_some s.metrics_http) [] in
    rw (calls_of s none c exit) (record {
      own = record {
        limiter = rw (append-nil (graceful s)) l;
        collector = rw (append-nil (graceful s)) k;
        metrics = rw (append-nil (graceful s)) m;
        gracefully = rw (append-nil (graceful s)) h;
        by_force = rw (append-nil (graceful s)) (λ e. cc, λ e. absurd (e refl));
        in_turn = turn;
      };
      awake = rw (append-nil (graceful s)) z;
      apart = rw (append-nil (graceful s)) q;
    })
shutdown_web_server-Ends s (some message) c exit =
    let (l, k, m, h, f, z, q) =
      shutdown_made s.rate_limiter s.metrics_collect (is_some s.metrics_http) in
    let (l', k', m', f', z', q') =
      close_made s.rate_limiter s.metrics_collect (is_some s.metrics_http) in
    rw (calls_of s (some message) c exit) (record {
      own = record {
        limiter = rw (makes-append, l, l') (both s.rate_limiter);
        collector = rw (makes-append, k, k') (both s.metrics_collect);
        metrics = rw (makes-append, m, m') (either_false (is_some s.metrics_http));
        gracefully = rw (makes-append, h) refl;
        by_force = (λ e. λ n. cc, λ e. rw (makes-append, f, f') refl);
        in_turn =
            awaits-append s.rate_limiter s.metrics_collect (is_some s.metrics_http) (close s c).0;
      };
      awake = rw (makes-append, z, z') refl;
      apart = rw (makes-append, q, q') refl;
    })
