-- ===== src/Config/Warnings.antt =====
-- ProductionWarnings and WorkerProductionWarnings of config/validate.go. What net.SplitHostPort and
-- net.ParseIP make of an address is an argument.
use go_skeleton.Base.{
  ◌≡◌, ◌≢◌, ◌↔◌, ◌⊎◌, inl, inr, refl, Bool, true, false, not, ◌&&◌, Option, none, some, List, [],
  ◌∷◌, ◌++◌, if◌then◌else◌, arith,
}
use go_skeleton.Base.Int.{ℤ, pos, negsuc, leb_ℤ}
use go_skeleton.Base.Text.{Bytes, codes, beq, is_empty, trim}
use go_skeleton.Config.{Config, Environment, development, production, is_production}

-- net.IP, as far as it is asked.
pub record Ip : Type 0 where
  pub is_loopback : Bool
  pub is_private : Bool

-- net.SplitHostPort, of which the host is kept, and net.ParseIP.
pub record Net : Type 0 where
  pub split_host : Bytes → Option Bytes
  pub parse_ip : Bytes → Option Ip

pub data Warning : Type 0 where
  unlimited no_trusted_proxies metrics_on_api_port pprof_exposed worker_metrics_exposed : Warning

abbrev pub ip_is : (Ip → Bool) → Option Ip → Bool
ip_is p none = false
ip_is p (some ip) = p ip

abbrev loopback_host : Net → Option Bytes → Bool
loopback_host net none = false
loopback_host net (some host) =
    let h = trim host in
    if is_empty h
    then false
    else if beq h (codes "localhost")
    then true
    else ip_is (λ ip. ip.is_loopback) (net.parse_ip h)

unfoldable pub is_loopback_addr : Net → Bytes → Bool
is_loopback_addr net addr = loopback_host net (net.split_host (trim addr))

abbrev private_host : Net → Option Bytes → Bool
private_host net none = false
private_host net (some host) = ip_is (λ ip. ip.is_private) (net.parse_ip (trim host))

unfoldable pub is_private_addr : Net → Bytes → Bool
is_private_addr net addr = private_host net (net.split_host (trim addr))

abbrev pub warn_if : Bool → Warning → List Warning
warn_if b warning = if b then warning ∷ [] else []

abbrev pub no_entries : List Bytes → Bool
no_entries [] = true
no_entries (_ ∷ _) = false

abbrev pub is_zero : ℤ → Bool
is_zero z = leb_ℤ z (pos 0) && leb_ℤ (pos 0) z

-- The warnings of ProductionWarnings, in their order.
abbrev pub server_warnings : Net → Config → List Warning
server_warnings net cfg =
    let server = cfg.server in
    warn_if (is_zero cfg.rate_limit.requests_per_minute) unlimited
    ++ (warn_if (no_entries server.trusted_proxies) no_trusted_proxies
        ++ (warn_if (server.metrics_enabled && is_empty (trim server.metrics_addr))
              metrics_on_api_port
            ++ (warn_if (server.pprof_enabled && not (is_loopback_addr net server.pprof_addr))
                  pprof_exposed
                ++ [])))

unfoldable pub production_warnings : Net → Config → List Warning
unfolding is_loopback_addr is_production
production_warnings net cfg = if not (is_production cfg.env) then [] else server_warnings net cfg

unfoldable pub worker_production_warnings : Net → Config → List Warning
unfolding is_loopback_addr is_private_addr is_production
worker_production_warnings net cfg =
    let addr = trim cfg.worker.metrics_addr in
    let warns =
      warn_if
        (not (is_empty addr) && (not (is_loopback_addr net addr) && not (is_private_addr net addr)))
        worker_metrics_exposed in
    if not (is_production cfg.env) then [] else warns

pub warn_if-nil_iff :
    (b : Bool) (w : Warning) (ws : List Warning)
    → (warn_if b w ++ ws ≡ []) ↔ (b ≡ false) × (ws ≡ [])
warn_if-nil_iff true w ws = (λ h. cc, λ h. cc)
warn_if-nil_iff false w ws = (λ h. (refl, h), λ h. h.1)

-- What a server in production must be like to be warned of nothing.
pub record IsQuiet (net : Net) (cfg : Config) : Type 0 where
  pub limited : cfg.rate_limit.requests_per_minute ≢ pos 0
  pub proxies : cfg.server.trusted_proxies ≢ []
  pub metrics_apart :
      (cfg.server.metrics_enabled ≡ false) ⊎ (is_empty (trim cfg.server.metrics_addr) ≡ false)
  pub pprof_local :
      (cfg.server.pprof_enabled ≡ false) ⊎ (is_loopback_addr net cfg.server.pprof_addr ≡ true)

is_zero_iff : (z : ℤ) → (is_zero z ≡ false) ↔ (z ≢ pos 0)
is_zero_iff (pos n) = (λ h e. ground arith, λ n'. ground arith)
is_zero_iff (negsuc n) = (λ h e. cc, λ n'. ground arith)

no_entries_iff : (xs : List Bytes) → (no_entries xs ≡ false) ↔ (xs ≢ [])
no_entries_iff [] = (λ h. cc, λ n. absurd (n refl))
no_entries_iff (x ∷ xs) = (λ h e. cc, λ n. refl)

neither_iff : (b c : Bool) → ((b && c) ≡ false) ↔ (b ≡ false) ⊎ (c ≡ false)
neither_iff true c = (λ h. inr h, λ h. elim h [ inl e ↦ cc | inr e ↦ e ])
neither_iff false c = (λ h. inl refl, λ h. refl)

not_iff : (b : Bool) → (not b ≡ false) ↔ (b ≡ true)
not_iff true = (λ h. refl, λ h. refl)
not_iff false = (λ h. cc, λ h. cc)

server_warnings_iff : (net : Net) (cfg : Config) → (server_warnings net cfg ≡ []) ↔ IsQuiet net cfg
server_warnings_iff net cfg =
    let zero = is_zero_iff cfg.rate_limit.requests_per_minute in
    let proxies = no_entries_iff cfg.server.trusted_proxies in
    let metrics =
      neither_iff cfg.server.metrics_enabled (is_empty (trim cfg.server.metrics_addr)) in
    let local = not_iff (is_loopback_addr net cfg.server.pprof_addr) in
    let pprof =
      neither_iff cfg.server.pprof_enabled (not (is_loopback_addr net cfg.server.pprof_addr)) in
    (
      λ h.
          let (a, rest) =
            (warn_if-nil_iff (is_zero cfg.rate_limit.requests_per_minute) unlimited _).0 h in
          let (b, rest') =
            (warn_if-nil_iff (no_entries cfg.server.trusted_proxies) no_trusted_proxies _).0 rest in
          let (c, rest'') =
            (warn_if-nil_iff (cfg.server.metrics_enabled && is_empty (trim cfg.server.metrics_addr))
                metrics_on_api_port _).0
              rest' in
          let (d, _) =
            (warn_if-nil_iff
                (cfg.server.pprof_enabled && not (is_loopback_addr net cfg.server.pprof_addr))
                pprof_exposed []).0
              rest'' in
          record {
            limited = zero.0 a;
            proxies = proxies.0 b;
            metrics_apart = metrics.0 c;
            pprof_local = elim (pprof.0 d) [ inl e ↦ inl e | inr e ↦ inr (local.0 e) ];
          },
      λ q.
          rw
            (
              zero.1 q.limited,
              proxies.1 q.proxies,
              metrics.1 q.metrics_apart,
              pprof.1 (elim q.pprof_local [ inl e ↦ inl e | inr e ↦ inr (local.1 e) ]),
            )
            refl,
    )

-- ProductionWarnings gives no warning exactly if the process is not in production, or it limits the rate
-- of requests, names trusted proxies, does not have its metrics on the port of the API, and has no
-- profiles but on a loopback address.
pub production_warnings_iff :
    (net : Net) (cfg : Config)
    → (production_warnings net cfg ≡ []) ↔ (cfg.env ≡ production → IsQuiet net cfg)
unfolding production_warnings is_production
production_warnings_iff net cfg =
    by_env cfg.env (server_warnings net cfg) (server_warnings_iff net cfg)
  where
    by_env :
        (e : Environment) (ws : List Warning)
        → (ws ≡ []) ↔ IsQuiet net cfg
        → ((if not (is_production e) then [] else ws) ≡ []) ↔ (e ≡ production → IsQuiet net cfg)
    by_env development ws h = (λ _ e. cc, λ _. refl)
    by_env production ws h = (λ e _. h.0 e, λ q. h.1 (q refl))
