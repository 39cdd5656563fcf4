-- ===== src/Server/ProcessTests.antt =====
-- An API process in production that is warned of nothing, and its end.
use go_skeleton.Base.{◌*◌, ◌≡◌, refl, true, false, none, some, [], ◌∷◌}
use go_skeleton.Base.Int.{ℤ, pos, second}
use go_skeleton.Base.Text.{codes, trim}
use go_skeleton.Config.{Config}
use go_skeleton.Config.Env.{duration_env, parsed_env}
use go_skeleton.Config.Load.{load, read_config}
use go_skeleton.Config.Sample.{
  minute_only, quiet_production, no_net, loaded_quietly, is_quiet_in_production, is_quiet,
}
use go_skeleton.Bootstrap.{Registry}
use go_skeleton.Server.Process.{
  Server, new_server, serve_api, run, listen, listen_metrics, close_listener, listen_metrics_failed,
  new_metrics_server,
}
use mathlib.Core.List.{Permᴰ}
use go_skeleton.Base.Dict.{Dict}
use go_skeleton.Server.Queues.{
  queue_names, queue_names_stable, IsOrdered, sorted, insert_name, string_leb,
}
use go_skeleton.Errcode
use go_skeleton.Wire.{Body}
use go_skeleton.Gin.{View, returned}
use go_skeleton.Gin.Recording.{recording}
use go_skeleton.Response.Envelope.{Answers}
use go_skeleton.Response.Sample.{context_at}
use go_skeleton.Auth.Sample.{sample}
use go_skeleton.Server.Routes.{
  Route, IsTable, engine_routes, engine_routes-IsTable, find_route, route_handler,
  route_handler_refuses,
}
use go_skeleton.Server.Process.Shutdown.{Stops}
use go_skeleton.Server.Process.Stopping.{IsGraceful, serve_api_drains}
use go_skeleton.Server.Process.Limits.{Apart, new_server_of_quiet}

abbrev cfg : Config
cfg = (load minute_only quiet_production).0

abbrev registry : Registry
registry = record {
  pool = true;
  cache_client = false;
  queue = false;
  queue_inspector = false;
  auth = none;
}

thirty : cfg.server.request_timeout ≡ pos (30 * second)
unfolding load read_config duration_env parsed_env trim
thirty = refl

new_server_of_quiet_example :
    ((new_server cfg registry).rate_limiter ≡ true) × Apart cfg (new_server cfg registry)
new_server_of_quiet_example =
    new_server_of_quiet no_net minute_only quiet_production registry loaded_quietly
      is_quiet_in_production is_quiet

serve_api_drains_example :
    let (calls, e) =
      serve_api cfg (new_server cfg registry) none (some "deadline exceeded") none (some none) in
    (e ≡ none)
    × IsGraceful cfg calls
    × Stops (new_server cfg registry) (some "deadline exceeded") calls
serve_api_drains_example =
    serve_api_drains cfg (new_server cfg registry) (some "deadline exceeded") none (some none)

abbrev with_metrics : Server
with_metrics = record {
  http = new_metrics_server (codes ":3000");
  metrics_http = some (new_metrics_server (codes ":9090"));
  rate_limiter = false;
  metrics_collect = false;
}

-- A port of the metrics that is taken gives the other port back.
released :
    run with_metrics true none (some "in use") none
    ≡ (listen ∷ listen_metrics ∷ close_listener ∷ [], some (listen_metrics_failed "in use"))
unfolding run
released = refl

abbrev two : Dict ℤ
two = (codes "low", pos 1) ∷ (codes "critical", pos 6) ∷ []

abbrev two_again : Dict ℤ
two_again = (codes "critical", pos 6) ∷ (codes "low", pos 1) ∷ []

queue_names_stable_example :
    Permᴰ (queue_names two) (codes "low" ∷ codes "critical" ∷ [])
    × IsOrdered (queue_names two)
    × (queue_names two ≡ queue_names two_again)
queue_names_stable_example = queue_names_stable two two_again (Permᴰ.swap refl refl)

rising : queue_names two ≡ codes "critical" ∷ codes "low" ∷ []
unfolding queue_names sorted insert_name string_leb
rising = refl

engine_routes-IsTable_example : IsTable cfg (engine_routes cfg)
engine_routes-IsTable_example = engine_routes-IsTable cfg

route_handler_refuses_example :
    (r : Route) × (c' : View Body) × (find_route "GET" (codes "/api/v1/auth/me") (engine_routes cfg)
      ≡ some r)
    × (route_handler sample (recording Body) none (λ e c. returned c) r (context_at 7)
        ≡ returned c')
    × Answers Errcode.unauthorized (context_at 7) c'
route_handler_refuses_example =
    route_handler_refuses sample (recording Body) cfg none (λ e c. returned c) (context_at 7)
      (λ m same. cc)
