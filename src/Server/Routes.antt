-- ===== src/Server/Routes.antt =====
-- The routes of the API: those of newEngine of internal/server.go, and RegisterRoutes of
-- internal/router/router.go with the handlers and the middleware that NewServer makes. gin's routing is
-- not part of the repository: for paths without parameters it is a search for the method and the path,
-- and registering a pair twice panics.
use go_skeleton.Base.{
  String, str_eq, ◌≡◌, ◌≢◌, ◌↔◌, refl, Bool, true, false, ◌&&◌, ◌||◌, Option, none, some, List, [],
  ◌∷◌, ◌++◌, if◌then◌else◌, err,
}
use go_skeleton.Base.Text.{Bytes, codes, beq, is_empty, trim}
use go_skeleton.Config.{Config, Environment, development, production, is_production}
use go_skeleton.Errcode
use go_skeleton.Wire.{Body}
use go_skeleton.Gin.{Gin, Handler, returned}
use go_skeleton.Response.Envelope.{Answers}
use go_skeleton.Auth.{Jwt, JwtManager, AuthError, parse_token}
use go_skeleton.Middleware.BearerAuth.{bearer_auth}
use go_skeleton.Handler.Auth.Exchange.{bearer_auth_refuses}

pub data Endpoint : Type 0 where
  live_endpoint health_endpoint spec_endpoint docs_endpoint metrics_endpoint : Endpoint
  create_token_endpoint me_endpoint list_endpoint create_endpoint enqueue_endpoint : Endpoint

-- A route, and whether BearerAuth stands before its handler.
pub record Route : Type 0 where
  pub method : String
  pub path : Bytes
  pub authenticated : Bool
  pub endpoint : Endpoint

abbrev pub open_route : String → String → Endpoint → Route
open_route method path endpoint = record {
  method = method;
  path = codes path;
  authenticated = false;
  endpoint = endpoint;
}

unfoldable pub register_routes : List Route
register_routes =
    open_route "POST" "/api/v1/auth/token" create_token_endpoint
    ∷ record {
      method = "GET";
      path = codes "/api/v1/auth/me";
      authenticated = true;
      endpoint = me_endpoint;
    }
    ∷ open_route "GET" "/api/v1/examples" list_endpoint
    ∷ open_route "POST" "/api/v1/examples" create_endpoint
    ∷ open_route "POST" "/api/v1/examples/tasks" enqueue_endpoint
    ∷ []

abbrev pub probes : List Route
probes = open_route "GET" "/livez" live_endpoint ∷ open_route "GET" "/health" health_endpoint ∷ []

abbrev pub documents : Bool → List Route
documents true = []
documents false =
    open_route "GET" "/openapi.json" spec_endpoint ∷ open_route "GET" "/docs" docs_endpoint ∷ []

abbrev pub metrics_route : Bool → List Route
metrics_route true = open_route "GET" "/metrics" metrics_endpoint ∷ []
metrics_route false = []

-- The routes of newEngine, in the order in which they are registered.
unfoldable pub engine_routes : Config → List Route
unfolding register_routes is_production
engine_routes cfg =
    probes
    ++ (documents (is_production cfg.env)
        ++ (metrics_route (cfg.server.metrics_enabled && is_empty (trim cfg.server.metrics_addr))
            ++ register_routes))

abbrev pub serves : String → Bytes → Route → Bool
serves method path r = str_eq r.method method && beq r.path path

unfoldable pub find_route : String → Bytes → List Route → Option Route
find_route method path [] = none
find_route method path (r ∷ rs) =
    let rest = find_route method path rs in if serves method path r then some r else rest

-- Whether a route has the method and the path of another.
abbrev registered : Route → List Route → Bool
registered r [] = false
registered r (q ∷ qs) = serves r.method r.path q || registered r qs

-- No method and path stands twice.
abbrev pub Distinct : List Route → Type 0
Distinct [] = Unit {0}
Distinct (r ∷ rs) = (registered r rs ≡ false) × Distinct rs

engine_routes-Distinct :
    (p m : Bool) → Distinct (probes ++ (documents p ++ (metrics_route m ++ register_routes)))
unfolding register_routes beq
engine_routes-Distinct true true =
    (refl, (refl, (refl, (refl, (refl, (refl, (refl, (refl, tt))))))))
engine_routes-Distinct true false = (refl, (refl, (refl, (refl, (refl, (refl, (refl, tt)))))))
engine_routes-Distinct false true =
    (refl, (refl, (refl, (refl, (refl, (refl, (refl, (refl, (refl, (refl, tt))))))))))
engine_routes-Distinct false false =
    (refl, (refl, (refl, (refl, (refl, (refl, (refl, (refl, (refl, tt)))))))))

-- What a client finds.
pub record IsTable (cfg : Config) (routes : List Route) : Type 0 where
  pub distinct : Distinct routes
  pub spec_hidden :
      (find_route "GET" (codes "/openapi.json") routes ≡ none) ↔ (cfg.env ≡ production)
  pub docs_hidden : (find_route "GET" (codes "/docs") routes ≡ none) ↔ (cfg.env ≡ production)
  pub metrics_shared :
      (find_route "GET" (codes "/metrics") routes ≢ none)
      ↔ (cfg.server.metrics_enabled ≡ true) × (is_empty (trim cfg.server.metrics_addr) ≡ true)

both_iff : (b c : Bool) → ((b && c) ≡ true) ↔ (b ≡ true) × (c ≡ true)
both_iff true c = (λ h. (refl, h), λ h. h.1)
both_iff false c = (λ h. cc, λ h. cc)

abbrev routes_of : Bool → Bool → List Route
routes_of p m = probes ++ (documents p ++ (metrics_route m ++ register_routes))

documents_hidden :
    (p m : Bool)
    → ((find_route "GET" (codes "/openapi.json") (routes_of p m) ≡ none) ↔ (p ≡ true))
      × ((find_route "GET" (codes "/docs") (routes_of p m) ≡ none) ↔ (p ≡ true))
      × ((find_route "GET" (codes "/metrics") (routes_of p m) ≢ none) ↔ (m ≡ true))
unfolding find_route register_routes beq
documents_hidden true true =
    ((λ h. refl, λ h. refl), (λ h. refl, λ h. refl), (λ h. refl, λ h. λ e. cc))
documents_hidden true false =
    ((λ h. refl, λ h. refl), (λ h. refl, λ h. refl), (λ h. absurd (h refl), λ h. cc))
documents_hidden false true = ((λ h. cc, λ h. cc), (λ h. cc, λ h. cc), (λ h. refl, λ h. λ e. cc))
documents_hidden false false =
    ((λ h. cc, λ h. cc), (λ h. cc, λ h. cc), (λ h. absurd (h refl), λ h. cc))

production_iff : (e : Environment) → (is_production e ≡ true) ↔ (e ≡ production)
unfolding is_production
production_iff development = (λ h. cc, λ h. cc)
production_iff production = (λ h. refl, λ h. refl)

-- In every configuration no method and path is registered twice, at which gin would panic. The
-- description of the API and its documents are routed exactly outside of production, and the metrics
-- exactly if they are enabled without an address of their own.
pub engine_routes-IsTable : (cfg : Config) → IsTable cfg (engine_routes cfg)
unfolding engine_routes
engine_routes-IsTable cfg =
    let p = is_production cfg.env in
    let m = cfg.server.metrics_enabled && is_empty (trim cfg.server.metrics_addr) in
    let env = production_iff cfg.env in
    let (spec, docs, metrics) = documents_hidden p m in
    let shared = both_iff cfg.server.metrics_enabled (is_empty (trim cfg.server.metrics_addr)) in
    record {
      distinct = engine_routes-Distinct p m;
      spec_hidden = (λ h. env.0 (spec.0 h), λ h. spec.1 (env.1 h));
      docs_hidden = (λ h. env.0 (docs.0 h), λ h. docs.1 (env.1 h));
      metrics_shared = (λ h. shared.0 (metrics.0 h), λ h. metrics.1 (shared.1 h));
    }

module _ (j : Jwt) (g : Gin Body) where
  open g use {Context, view}

  -- What runs for a route, of the handlers of all endpoints.
  unfoldable pub route_handler :
      Option JwtManager → (Endpoint → Handler Context) → Route → Handler Context
  route_handler manager handlers r =
      if r.authenticated then bearer_auth j g manager (handlers r.endpoint) else handlers r.endpoint

  me_found :
      (p m : Bool)
      → find_route "GET" (codes "/api/v1/auth/me") (routes_of p m)
        ≡ some (record {
          method = "GET";
          path = codes "/api/v1/auth/me";
          authenticated = true;
          endpoint = me_endpoint;
        })
  unfolding find_route register_routes beq
  me_found true true = refl
  me_found true false = refl
  me_found false true = refl
  me_found false false = refl

  -- In every configuration GET /api/v1/auth/me is routed, and what is registered for it, run after the
  -- engine's own middleware has passed a request on, answers the request by UNAUTHORIZED alone, whatever
  -- the handlers are, if ParseToken refuses its token, or if there is no manager of tokens.
  pub route_handler_refuses :
      (cfg : Config) (manager : Option JwtManager) (handlers : Endpoint → Handler Context)
      (c : Context)
      → ((m : JwtManager)
          → manager ≡ some m
          → (e : AuthError) × (parse_token j m
                (view c).now
                ((view c).request.headers "Authorization")
              ≡ err e))
      → (r : Route) × (c' : Context) × (find_route "GET"
            (codes "/api/v1/auth/me")
            (engine_routes cfg)
          ≡ some r)
        × (route_handler manager handlers r c ≡ returned c')
        × Answers Errcode.unauthorized (view c) (view c')
  unfolding engine_routes route_handler
  route_handler_refuses cfg manager handlers c h =
      let (c', same, answers, aborted) =
        bearer_auth_refuses j g manager (handlers me_endpoint) c h in
      (
        record {
          method = "GET";
          path = codes "/api/v1/auth/me";
          authenticated = true;
          endpoint = me_endpoint;
        },
        c',
        me_found (is_production cfg.env)
            (cfg.server.metrics_enabled && is_empty (trim cfg.server.metrics_addr)),
        same,
        answers,
      )
