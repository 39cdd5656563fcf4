-- ===== src/Cli/All.antt =====
-- The command all of internal/cli/all.go, and the migrations of migrate.go that it begins with.
use go_skeleton.Base.{◌≡◌, ◌≢◌, ◌↔◌, refl, Bool, true, false, List, [], ◌∷◌}
use go_skeleton.Cli.{
  Database, unreachable, unconfigured, configured, World, up, down, status, Step, print_usage,
  print_version, load_config, open_database, ping_database, close_database, goose, open_registry,
  make_server, make_worker, serve_api, run_worker, wait_worker, close_registry, returns, Trace,
  migrate, run_all,
}

-- Whether a part of the service is opened, made or run before the migrations have succeeded.
abbrev pub starts_early : List Step → Bool
starts_early [] = false
starts_early (goose up true ∷ steps) = false
starts_early (goose up false ∷ steps) = starts_early steps
starts_early (goose down b ∷ steps) = starts_early steps
starts_early (goose status b ∷ steps) = starts_early steps
starts_early (open_registry ∷ steps) = true
starts_early (make_server ∷ steps) = true
starts_early (make_worker ∷ steps) = true
starts_early (serve_api ∷ steps) = true
starts_early (run_worker ∷ steps) = true
starts_early (wait_worker ∷ steps) = true
starts_early (close_registry ∷ steps) = true
starts_early (print_usage ∷ steps) = starts_early steps
starts_early (print_version ∷ steps) = starts_early steps
starts_early (load_config ∷ steps) = starts_early steps
starts_early (open_database ∷ steps) = starts_early steps
starts_early (ping_database ∷ steps) = starts_early steps
starts_early (close_database ∷ steps) = starts_early steps

-- Whether the database of the migrations is open in the end, if it was open in the beginning as said.
abbrev pub left_open : Bool → List Step → Bool
left_open b [] = b
left_open b (open_database ∷ steps) = left_open true steps
left_open b (close_database ∷ steps) = left_open false steps
left_open b (goose c d ∷ steps) = left_open b steps
left_open b (open_registry ∷ steps) = left_open b steps
left_open b (make_server ∷ steps) = left_open b steps
left_open b (make_worker ∷ steps) = left_open b steps
left_open b (serve_api ∷ steps) = left_open b steps
left_open b (run_worker ∷ steps) = left_open b steps
left_open b (wait_worker ∷ steps) = left_open b steps
left_open b (close_registry ∷ steps) = left_open b steps
left_open b (print_usage ∷ steps) = left_open b steps
left_open b (print_version ∷ steps) = left_open b steps
left_open b (load_config ∷ steps) = left_open b steps
left_open b (ping_database ∷ steps) = left_open b steps

-- Everything that `all` needs succeeds.
pub record IsHealthy (w : World) : Type 0 where
  pub config_loads : w.config_loads ≡ true
  pub database : w.database ≡ configured
  pub locker_made : w.locker_made ≡ true
  pub provider_made : w.provider_made ≡ true
  pub answers_ping : w.answers_ping ≡ true
  pub goose_succeeds : w.goose_succeeds ≡ true
  pub registry_opens : w.registry_opens ≡ true
  pub server_made : w.server_made ≡ true
  pub worker_made : w.worker_made ≡ true
  pub api_succeeds : w.api_succeeds ≡ true
  pub worker_succeeds : w.worker_succeeds ≡ true

pub record AllSound (w : World) (t : Trace) : Type 0 where
  pub migrated_first : starts_early t.0 ≡ false
  pub database_closed : left_open false t.0 ≡ false
  pub succeeds : (t.1 ≡ returns) ↔ IsHealthy w

abbrev world :
    Bool → Database → Bool → Bool → Bool → Bool → Bool → Bool → Bool → Bool → Bool → World
world c d l p a g r s k x y = record {
  config_loads = c;
  database = d;
  locker_made = l;
  provider_made = p;
  answers_ping = a;
  goose_succeeds = g;
  registry_opens = r;
  server_made = s;
  worker_made = k;
  api_succeeds = x;
  worker_succeeds = y;
}

-- A run that something stops.
stopped :
    (w : World) (t : Trace)
    → starts_early t.0 ≡ false
    → left_open false t.0 ≡ false
    → t.1 ≢ returns
    → ¬ IsHealthy w
    → AllSound w t
stopped w t e f h k = record {
  migrated_first = e;
  database_closed = f;
  succeeds = (λ r. absurd (h r), λ r. absurd (k r));
}

-- The runs, by the first step that fails.
run_all_sound :
    (c : Bool) (d : Database) (l p a g r s k x y : Bool)
    → let w = world c d l p a g r s k x y in AllSound w (run_all w [])
unfolding run_all migrate
run_all_sound false d l p a g r s k x y =
    stopped _ _ refl refl (λ e. cc) (λ h. let e = h.config_loads in cc)
run_all_sound true unreachable l p a g r s k x y =
    stopped _ _ refl refl (λ e. cc) (λ h. let e = h.database in cc)
run_all_sound true unconfigured l p a g r s k x y =
    stopped _ _ refl refl (λ e. cc) (λ h. let e = h.database in cc)
run_all_sound true configured false p a g r s k x y =
    stopped _ _ refl refl (λ e. cc) (λ h. let e = h.locker_made in cc)
run_all_sound true configured true false a g r s k x y =
    stopped _ _ refl refl (λ e. cc) (λ h. let e = h.provider_made in cc)
run_all_sound true configured true true false g r s k x y =
    stopped _ _ refl refl (λ e. cc) (λ h. let e = h.answers_ping in cc)
run_all_sound true configured true true true false r s k x y =
    stopped _ _ refl refl (λ e. cc) (λ h. let e = h.goose_succeeds in cc)
run_all_sound true configured true true true true false s k x y =
    stopped _ _ refl refl (λ e. cc) (λ h. let e = h.registry_opens in cc)
run_all_sound true configured true true true true true false k x y =
    stopped _ _ refl refl (λ e. cc) (λ h. let e = h.server_made in cc)
run_all_sound true configured true true true true true true false x y =
    stopped _ _ refl refl (λ e. cc) (λ h. let e = h.worker_made in cc)
run_all_sound true configured true true true true true true true false y =
    stopped _ _ refl refl (λ e. cc) (λ h. let e = h.api_succeeds in cc)
run_all_sound true configured true true true true true true true true false =
    stopped _ _ refl refl (λ e. cc) (λ h. let e = h.worker_succeeds in cc)
run_all_sound true configured true true true true true true true true true = record {
  migrated_first = refl;
  database_closed = refl;
  succeeds = (
    λ h. record {
      config_loads = refl;
      database = refl;
      locker_made = refl;
      provider_made = refl;
      answers_ping = refl;
      goose_succeeds = refl;
      registry_opens = refl;
      server_made = refl;
      worker_made = refl;
      api_succeeds = refl;
      worker_succeeds = refl;
    },
    λ h. refl,
  );
}

-- Without further arguments, `all` starts no part of the service before the migrations have succeeded,
-- leaves the connection of the migrations closed whatever fails, and returns without an error exactly if all
-- that it needs succeeds.
pub run_all-AllSound : (w : World) → AllSound w (run_all w [])
run_all-AllSound w =
    run_all_sound w.config_loads w.database w.locker_made w.provider_made w.answers_ping
      w.goose_succeeds w.registry_opens w.server_made w.worker_made w.api_succeeds w.worker_succeeds
