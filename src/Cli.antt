-- ===== src/Cli.antt =====
-- internal/cli: the commands of the program as lists of what they do, in a world that decides what fails.
-- Logging is left out but for Fatal, which ends the process at once, without what was deferred.
pub mod All
mod Tests
use go_skeleton.Base.{
  ℕ, ◌≡◌, ◌↔◌, ◌⊎◌, refl, Bool, true, false, ◌&&◌, ◌||◌, Option, none, some, List, [], ◌∷◌, ◌++◌,
  Result, ok, err, if◌then◌else◌,
}
use go_skeleton.Base.Text.{Bytes, codes, beq}

pub data Database : Type 0 where
  unreachable unconfigured configured : Database

-- What succeeds.
pub record World : Type 0 where
  pub config_loads : Bool
  pub database : Database
  pub locker_made : Bool
  pub provider_made : Bool
  pub answers_ping : Bool
  pub goose_succeeds : Bool
  pub registry_opens : Bool
  pub server_made : Bool
  pub worker_made : Bool
  pub api_succeeds : Bool
  pub worker_succeeds : Bool

pub data MigrateCommand : Type 0 where
  up down status : MigrateCommand

-- A run of goose is recorded with its success, a database that cannot be opened is not.
pub data Step : Type 0 where
  print_usage print_version load_config : Step
  open_database ping_database close_database : Step
  goose : MigrateCommand → Bool → Step
  open_registry make_server make_worker serve_api run_worker wait_worker close_registry : Step

-- How a command ends: it returns, returns an error, or Fatal ends the process.
pub data End : Type 0 where
  returns fails exits : End

abbrev pub Trace : Type 0
Trace = List Step × End

abbrev pub before : List Step → Trace → Trace
before steps (more, end) = (steps ++ more, end)

-- parseMigrateArgs
unfoldable pub migrate_command : Bytes → Option MigrateCommand
migrate_command arg =
    if beq arg (codes "up")
    then some up
    else if beq arg (codes "down")
    then some down
    else if beq arg (codes "status")
    then some status
    else none

unfoldable pub parse_migrate_args : List Bytes → Option MigrateCommand
unfolding migrate_command
parse_migrate_args [] = some up
parse_migrate_args (arg ∷ []) = migrate_command arg
parse_migrate_args (arg ∷ more ∷ args) = none

-- What migrate does with a database that is configured, until the database is closed.
abbrev pub migrating : World → MigrateCommand → List Step × Bool
migrating w cmd =
    if w.locker_made && w.provider_made
    then if w.answers_ping
      then (ping_database ∷ goose cmd w.goose_succeeds ∷ [], w.goose_succeeds)
      else (ping_database ∷ [], false)
    else ([], false)

abbrev migrate_with : World → MigrateCommand → Database → List Step × Bool
migrate_with w cmd unreachable = ([], false)
migrate_with w cmd unconfigured = (open_database ∷ close_database ∷ [], false)
migrate_with w cmd configured =
    let (steps, succeeded) = migrating w cmd in
    (open_database ∷ (steps ++ close_database ∷ []), succeeded)

-- migrate: its steps, and whether it returns without an error.
unfoldable pub migrate : World → MigrateCommand → List Step × Bool
migrate w cmd = migrate_with w cmd w.database

abbrev migrated : List Step × Bool → Trace
migrated (steps, succeeded) = (load_config ∷ steps, if succeeded then returns else exits)

abbrev run_parsed : World → Option MigrateCommand → Trace
run_parsed w none = ([], fails)
run_parsed w (some cmd) =
    let rest = migrated (migrate w cmd) in
    if w.config_loads then rest else (load_config ∷ [], fails)

unfoldable pub run_migrate : World → List Bytes → Trace
run_migrate w args = run_parsed w (parse_migrate_args args)

-- The end of a component's run: the registry is closed where it returns, and Fatal comes first where it fails.
abbrev closing : Bool → Trace
closing true = (close_registry ∷ [], returns)
closing false = ([], exits)

abbrev opened : World → Trace → Trace
opened w rest =
    if w.registry_opens then before (open_registry ∷ []) rest else (open_registry ∷ [], exits)

abbrev with_server : World → Trace → Trace
with_server w rest =
    if w.server_made then before (make_server ∷ []) rest else (make_server ∷ [], exits)

abbrev with_worker : World → Trace → Trace
with_worker w rest =
    if w.worker_made then before (make_worker ∷ []) rest else (make_worker ∷ [], exits)

abbrev without_args : World → List Bytes → Trace → Trace
without_args w [] rest =
    if w.config_loads then before (load_config ∷ []) rest else (load_config ∷ [], fails)
without_args w (arg ∷ args) rest = ([], fails)

unfoldable pub run_api : World → List Bytes → Trace
run_api w args =
    without_args w args
      (opened w (with_server w (before (serve_api ∷ []) (closing w.api_succeeds))))

unfoldable pub run_worker_command : World → List Bytes → Trace
run_worker_command w args =
    without_args w args
      (opened w (with_worker w (before (run_worker ∷ []) (closing w.worker_succeeds))))

abbrev after_migration : List Step × Bool → Trace → Trace
after_migration (steps, true) rest = before steps rest
after_migration (steps, false) rest = (steps, exits)

-- The worker runs in a goroutine of its own while the API is served; both are waited for.
unfoldable pub run_all : World → List Bytes → Trace
run_all w args = without_args w args (
    after_migration (migrate w up) (
      opened w (
        with_server w (
          with_worker w (
            before (run_worker ∷ serve_api ∷ wait_worker ∷ [])
              (closing (w.api_succeeds && w.worker_succeeds)))))))

abbrev exit_code : End → ℕ
exit_code returns = 0
exit_code fails = 1
exit_code exits = 1

abbrev exit_with : Trace → List Step × ℕ
exit_with (steps, end) = (steps, exit_code end)

abbrev is_version : Bytes → Bool
is_version name = beq name (codes "-version") || beq name (codes "--version")

abbrev is_help : Bytes → Bool
is_help name = beq name (codes "-h") || (beq name (codes "--help") || beq name (codes "help"))

pub data Command : Type 0 where
  all_command api_command worker_command migrate_command_of version_command help_command unknown :
      Command

-- The command that a name stands for.
unfoldable pub command_of : Bytes → Command
command_of name =
    if is_version name
    then version_command
    else if is_help name
    then help_command
    else if beq name (codes "all")
    then all_command
    else if beq name (codes "api")
    then api_command
    else if beq name (codes "worker")
    then worker_command
    else if beq name (codes "migrate")
    then migrate_command_of
    else if beq name (codes "version")
    then version_command
    else unknown

abbrev pub dispatch : World → Command → List Bytes → List Step × ℕ
dispatch w all_command args = exit_with (run_all w args)
dispatch w api_command args = exit_with (run_api w args)
dispatch w worker_command args = exit_with (run_worker_command w args)
dispatch w migrate_command_of args = exit_with (run_migrate w args)
dispatch w version_command args = (print_version ∷ [], 0)
dispatch w help_command args = (print_usage ∷ [], 0)
dispatch w unknown args = (print_usage ∷ [], 2)

-- Run: the steps and the exit code.
unfoldable pub run : World → List Bytes → List Step × ℕ
unfolding command_of
run w [] = dispatch w all_command []
run w (name ∷ args) = dispatch w (command_of name) args
