-- ===== src/Server/Process/Limits.antt =====
-- The limits of the server that a configuration gives.
use go_skeleton.Base.{
  ℕ, zero, suc, ◌+◌, ◌*◌, ◌%◌, ◌^◌, ◌<◌, ◌≡◌, ◌≢◌, ◌⊎◌, inl, inr, refl, ap, sym, ◌∙◌, Option-cases,
  Bool, true, false, Option, none, some, [], arith,
}
use go_skeleton.Base.Int.{ℤ, pos, negsuc, leb_ℤ, ltb_ℤ, second, signed64, ◌≤ℤ◌}
use go_skeleton.Server.Routes.{find_route, engine_routes, engine_routes-IsTable}
use go_skeleton.Base.Text.{codes, Bytes, is_empty, trim}
use go_skeleton.Config.{Config, production}
use go_skeleton.Config.Env.{Variables}
use go_skeleton.Config.Load.{load, load_iff}
use go_skeleton.Config.Warnings.{Net, production_warnings, production_warnings_iff}
use go_skeleton.Bootstrap.{Registry}
use go_skeleton.Server.Process.{Server, add64, new_http_server, new_metrics_server, new_server}

add64_exact : (a b : ℕ) → a + b < 2 ^ 63 → add64 (pos a) (pos b) ≡ pos (a + b)
unfolding add64 signed64
add64_exact a b h =
    let left : a % 2 ^ 64 ≡ a = omega arith in
    let right : b % 2 ^ 64 ≡ b = omega arith in
    let total : (a + b) % 2 ^ 64 ≡ a + b = omega arith in rw (left, right, total) (ground arith)

-- With a request timeout that is positive and at least five seconds below the largest duration, the
-- server gives a response five seconds more than the timeout that the middleware answers at.
pub new_http_server_outlasts :
    (cfg : Config) (n : ℕ)
    → cfg.server.request_timeout ≡ pos n
    → 0 < n
    → n + 5 * second < 2 ^ 63
    → ((new_http_server cfg).write_timeout ≡ pos (n + 5 * second))
      × ((new_http_server cfg).read_timeout ≡ pos (n + 5 * second))
unfolding new_http_server
new_http_server_outlasts cfg n e p h =
    let some : leb_ℤ (pos n) (pos 0) ≡ false = ground arith in
    let exact = add64_exact n (5 * second) h in rw (e, some) (exact, exact)

positive_of : (z : ℤ) → pos 0 ≤ℤ z → z ≢ pos 0 → ltb_ℤ (pos 0) z ≡ true
positive_of (pos n) h p = elim (zero_or n) [ inl e ↦ absurd (p (ap pos e)) | inr q ↦ ground arith ]
  where
    zero_or : (n : ℕ) → (n ≡ 0) ⊎ (0 < n)
    zero_or zero = inl refl
    zero_or (suc n) = inr (omega arith)
positive_of (negsuc n) h p = absurd (omega (arith, h))

-- The engine of the API has no route for the metrics; they have a listener of their own, at the configured
-- address, or there are none.
pub record Apart (cfg : Config) (s : Server) : Type 0 where
  pub unrouted : find_route "GET" (codes "/metrics") (engine_routes cfg) ≡ none
  pub own_listener :
      (cfg.server.metrics_enabled ≡ false)
      ⊎ (s.metrics_http ≡ some (new_metrics_server cfg.server.metrics_addr))

unrouted_of :
    (cfg : Config)
    → (cfg.server.metrics_enabled ≡ false) ⊎ (is_empty (trim cfg.server.metrics_addr) ≡ false)
    → find_route "GET" (codes "/metrics") (engine_routes cfg) ≡ none
unrouted_of cfg h = elim (Option-cases (find_route "GET" (codes "/metrics") (engine_routes cfg))) [
  | inl e ↦ e
  | inr (r, e) ↦
      let (enabled, blank) =
        (engine_routes-IsTable cfg).metrics_shared.0 (λ n. let t = sym e ∙ n in cc) in
      elim h [ inl off ↦ cc | inr addr ↦ cc ]
]

listener_of :
    (cfg : Config) (reg : Registry) (enabled blank : Bool)
    → cfg.server.metrics_enabled ≡ enabled
    → is_empty (trim cfg.server.metrics_addr) ≡ blank
    → (cfg.server.metrics_enabled ≡ false) ⊎ (is_empty (trim cfg.server.metrics_addr) ≡ false)
    → (cfg.server.metrics_enabled ≡ false)
      ⊎ ((new_server cfg reg).metrics_http ≡ some (new_metrics_server cfg.server.metrics_addr))
unfolding new_server
listener_of cfg reg false blank e b h = inl e
listener_of cfg reg true false e b h = inr (rw (e, b) refl)
listener_of cfg reg true true e b (inl f) = cc
listener_of cfg reg true true e b (inr f) = cc

-- A configuration that Load lets through in production without a warning makes a server that limits the
-- requests of each address. Its metrics are kept off the port of the API: the API's engine has no route
-- GET /metrics, and the metrics have a listener of their own at the configured address, or are disabled.
pub new_server_of_quiet :
    (net : Net) (parse_duration : Bytes → Option ℤ) (env : Variables) (reg : Registry)
    → (load parse_duration env).1 ≡ none
    → (load parse_duration env).0.env ≡ production
    → production_warnings net (load parse_duration env).0 ≡ []
    → ((new_server (load parse_duration env).0 reg).rate_limiter ≡ true)
      × Apart (load parse_duration env).0 (new_server (load parse_duration env).0 reg)
unfolding new_server
new_server_of_quiet net parse_duration env reg loaded in_production silent =
    let cfg = (load parse_duration env).0 in
    let sound = ((load_iff parse_duration env).0 loaded).1 in
    let quiet = (production_warnings_iff net cfg).0 silent in_production in
    (
      positive_of cfg.rate_limit.requests_per_minute sound.rate quiet.limited,
      record {
        unrouted = unrouted_of cfg quiet.metrics_apart;
        own_listener =
            listener_of cfg reg cfg.server.metrics_enabled (is_empty (trim cfg.server.metrics_addr))
              refl refl quiet.metrics_apart;
      },
    )
