-- ===== src/Server/Process/Stopping.antt =====
-- What the end of an API process stops, and in which order.
use go_skeleton.Base.{
  String, ◌≡◌, refl, sym, ap, ◌∙◌, arith, Bool, true, false, Option, none, List, [], ◌∷◌, ◌++◌,
  append-nil, ◌==◌, All,
}
use go_skeleton.Base.Int.{pos, ltb_ℤ}
use go_skeleton.Config.{Config}
use go_skeleton.Server.Process.{
  Server, Call, stop_limiter, stop_collector, shutdown_metrics, shutdown_http, close_http,
  start_draining, sleep, start_pprof, shutdown_pprof, ServerError, shutdown_web_server, serve_api,
  call_if,
}
use go_skeleton.Server.Process.Shutdown.{
  number_of, makes, awaits, stops, Stops, makes-append, either_false, shutdown_web_server-Ends,
}

-- A drain before any of this: the readiness is withdrawn first, and the process sleeps exactly if a window
-- is set; the server of pprof is stopped exactly if it is enabled.
pub record IsGraceful (cfg : Config) (calls : List Call) : Type 0 where
  pub announced : makes start_draining calls ≡ true
  pub announced_first : All (λ c. awaits start_draining c calls ≡ true) (sleep ∷ stops)
  pub slept : makes sleep calls ≡ ltb_ℤ (pos 0) cfg.server.graceful_drain
  pub slept_first :
      ltb_ℤ (pos 0) cfg.server.graceful_drain ≡ true → All (λ c. awaits sleep c calls ≡ true) stops
  pub pprof : makes shutdown_pprof calls ≡ cfg.server.pprof_enabled

-- All of serveAPI's calls after a signal, by what the shutdown makes.
abbrev around : Bool → Bool → List Call → List Call
around p b calls =
    call_if p start_pprof
    ++ ((start_draining ∷ (call_if b sleep ++ calls)) ++ call_if p shutdown_pprof)

ended-makes :
    (c : Call) (p : Bool) (calls : List Call)
    → (number_of c == number_of shutdown_pprof) ≡ false
    → makes c (calls ++ call_if p shutdown_pprof) ≡ makes c calls
ended-makes c true calls e =
    makes-append c calls (shutdown_pprof ∷ []) ∙ rw e (either_false (makes c calls))
ended-makes c false calls e = ap (makes c) (append-nil calls)

-- The other calls are made where the shutdown makes them.
around-makes :
    (c : Call) (p b : Bool) (calls : List Call)
    → (number_of c == 12) ≡ false
    → (number_of c == 13) ≡ false
    → (number_of c == 14) ≡ false
    → (number_of c == 15) ≡ false
    → makes c (around p b calls) ≡ makes c calls
around-makes c true true calls e f g h = rw (g, e, f) (ended-makes c true calls h)
around-makes c true false calls e f g h = rw (g, e) (ended-makes c true calls h)
around-makes c false true calls e f g h = rw (e, f) (ended-makes c false calls h)
around-makes c false false calls e f g h = rw e (ended-makes c false calls h)

around-sleeps :
    (p b : Bool) (calls : List Call)
    → makes sleep calls ≡ false
    → makes sleep (around p b calls) ≡ b
around-sleeps true true calls z = refl
around-sleeps true false calls z = ended-makes sleep true calls refl ∙ z
around-sleeps false true calls z = refl
around-sleeps false false calls z = ended-makes sleep false calls refl ∙ z

around-profiles :
    (p b : Bool) (calls : List Call)
    → makes shutdown_pprof calls ≡ false
    → makes shutdown_pprof (around p b calls) ≡ p
around-profiles true true calls q = makes-append shutdown_pprof calls _ ∙ rw q refl
around-profiles true false calls q = makes-append shutdown_pprof calls _ ∙ rw q refl
around-profiles false true calls q = ap (makes shutdown_pprof) (append-nil calls) ∙ q
around-profiles false false calls q = ap (makes shutdown_pprof) (append-nil calls) ∙ q

awaits-call_if :
    (p : Bool) (calls : List Call)
    → awaits shutdown_http close_http calls ≡ true
    → awaits shutdown_http close_http (calls ++ call_if p shutdown_pprof) ≡ true
awaits-call_if true [] h = refl
awaits-call_if false [] h = refl
awaits-call_if p (c ∷ calls) h = ground (arith, awaits-call_if p calls)

around-awaits :
    (p b : Bool) (calls : List Call)
    → awaits shutdown_http close_http calls ≡ true
    → awaits shutdown_http close_http (around p b calls) ≡ true
around-awaits true true calls h = awaits-call_if true calls h
around-awaits true false calls h = awaits-call_if true calls h
around-awaits false true calls h = awaits-call_if false calls h
around-awaits false false calls h = awaits-call_if false calls h

around-Stops :
    (s : Server) (failure : Option String) (p b : Bool) (calls : List Call)
    → Stops s failure calls
    → Stops s failure (around p b calls)
around-Stops s failure p b calls h =
    let forced = around-makes close_http p b calls refl refl refl refl in
    record {
      limiter = around-makes stop_limiter p b calls refl refl refl refl ∙ h.limiter;
      collector = around-makes stop_collector p b calls refl refl refl refl ∙ h.collector;
      metrics = around-makes shutdown_metrics p b calls refl refl refl refl ∙ h.metrics;
      gracefully = around-makes shutdown_http p b calls refl refl refl refl ∙ h.gracefully;
      by_force = (λ e. h.by_force.0 (sym forced ∙ e), λ e. forced ∙ h.by_force.1 e);
      in_turn = around-awaits p b calls h.in_turn;
    }

around-announced :
    (p b : Bool) (calls : List Call)
    → (makes start_draining (around p b calls) ≡ true)
      × All (λ c. awaits start_draining c (around p b calls) ≡ true) (sleep ∷ stops)
around-announced true b calls =
    (refl, (refl, (refl, (refl, (refl, (refl, (refl, (refl, (refl, tt)))))))))
around-announced false b calls =
    (refl, (refl, (refl, (refl, (refl, (refl, (refl, (refl, (refl, tt)))))))))

around-slept :
    (p b : Bool) (calls : List Call)
    → b ≡ true
    → All (λ c. awaits sleep c (around p b calls) ≡ true) stops
around-slept true true calls e = (refl, (refl, (refl, (refl, (refl, (refl, (refl, tt)))))))
around-slept false true calls e = (refl, (refl, (refl, (refl, (refl, (refl, (refl, tt)))))))
around-slept p false calls e = cc

-- After a signal the API process withdraws its readiness, and sleeps for the drain window if one is set,
-- before anything is stopped. Then all that runs beside the handlers is stopped, where it runs, the server
-- of pprof included, and the port is closed, by force exactly if the graceful way failed, and after it,
-- whatever the calls give; and the process ends without an error.
pub serve_api_drains :
    (cfg : Config) (s : Server) (failure close_failure : Option String)
    (exit : Option (Option ServerError))
    → let (calls, e) = serve_api cfg s none failure close_failure exit in
      (e ≡ none) × IsGraceful cfg calls × Stops s failure calls
unfolding serve_api
serve_api_drains cfg s failure close_failure exit =
    let p = cfg.server.pprof_enabled in
    let b = ltb_ℤ (pos 0) cfg.server.graceful_drain in
    let calls = (shutdown_web_server s failure close_failure exit).0 in
    let ends = shutdown_web_server-Ends s failure close_failure exit in
    let (announced, first) = around-announced p b calls in
    (
      refl,
      record {
        announced = announced;
        announced_first = first;
        slept = around-sleeps p b calls ends.awake;
        slept_first = around-slept p b calls;
        pprof = around-profiles p b calls ends.apart;
      },
      around-Stops s failure p b calls ends.own,
    )
