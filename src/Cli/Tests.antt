-- ===== src/Cli/Tests.antt =====
-- Runs of the program.
use go_skeleton.Base.{◌≡◌, refl, true, [], ◌∷◌}
use go_skeleton.Base.Text.{codes, beq}
use go_skeleton.Cli.{
  configured, World, up, load_config, open_database, ping_database, close_database, goose,
  open_registry, make_server, make_worker, serve_api, run_worker, wait_worker, close_registry,
  print_usage, run, run_all, migrate, command_of, run_migrate, parse_migrate_args, migrate_command,
}
use go_skeleton.Cli.All.{AllSound, run_all-AllSound}

abbrev sound : World
sound = record {
  config_loads = true;
  database = configured;
  locker_made = true;
  provider_made = true;
  answers_ping = true;
  goose_succeeds = true;
  registry_opens = true;
  server_made = true;
  worker_made = true;
  api_succeeds = true;
  worker_succeeds = true;
}

run_all-AllSound_example : AllSound sound (run_all sound [])
run_all-AllSound_example = run_all-AllSound sound

default_runs : run sound [] ≡ (
  load_config
      ∷ open_database
      ∷ ping_database
      ∷ goose up true
      ∷ close_database
      ∷ open_registry
      ∷ make_server
      ∷ make_worker
      ∷ run_worker
      ∷ serve_api
      ∷ wait_worker
      ∷ close_registry
      ∷ [],
  0,
)
unfolding run run_all migrate
default_runs = refl

-- A mistyped command of migrate does not even load the configuration.
mistyped_refused : run sound (codes "migrate" ∷ codes "upp" ∷ []) ≡ ([], 1)
unfolding run command_of run_migrate parse_migrate_args migrate_command beq
mistyped_refused = refl

unknown_refused : run sound (codes "serve" ∷ []) ≡ (print_usage ∷ [], 2)
unfolding run command_of beq
unknown_refused = refl
