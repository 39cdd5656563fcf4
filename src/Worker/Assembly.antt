-- ===== src/Worker/Assembly.antt =====
-- internal/worker.go and the wiring of internal/worker/handler.go: from the registry to the handler of
-- the example task. Of a processor it matters whether it is the service's or the one that does nothing.
pub mod Production
use go_skeleton.Base.{
  ℕ, String, ◌≡◌, ◌≢◌, ◌↔◌, ◌⊎◌, inl, inr, refl, sym, ap, ◌∙◌, Bool, true, false, not, ◌&&◌, Option,
  none, some, List, [], ◌∷◌, ◌++◌, Result, ok, err, arith, if◌then◌else◌, Bool-cases,
}
use go_skeleton.Base.Text.{is_empty, trim}
use go_skeleton.Config.{Config, production, is_production}
use go_skeleton.Bootstrap.{Registry, World, InitError, Event, Started, init_worker}

-- What Deps.Example holds, if it is not nil.
pub data ExampleProcessor : Type 0 where
  service_processor noop_processor : ExampleProcessor

pub record ProcessorRequirement : Type 0 where
  pub name : String
  pub present : Bool

abbrev pub is_real : Option ExampleProcessor → Bool
is_real none = false
is_real (some noop_processor) = false
is_real (some service_processor) = true

-- (*Deps).RequiredProcessors of deps with this processor.
unfoldable pub required_processors : Option ExampleProcessor → List ProcessorRequirement
required_processors example = record { name = "ExampleProcessor"; present = is_real example } ∷ []

-- The processor that runs the example tasks once RegisterHandlers is done.
unfoldable pub register_handlers : Option ExampleProcessor → ExampleProcessor
register_handlers none = noop_processor
register_handlers (some p) = p

pub data WorkerError : Type 0 where
  missing_redis : WorkerError
  missing_processors : List String → WorkerError

unfoldable pub validate_worker_registry : Config → Option WorkerError
validate_worker_registry cfg = if is_empty cfg.redis.addr then some missing_redis else none

-- The names that buildWorkerDeps finds missing.
abbrev pub missing_of : List ProcessorRequirement → List String
missing_of [] = []
missing_of (r ∷ rs) = if not r.present then r.name ∷ missing_of rs else missing_of rs

abbrev pub unless_missing :
    List String → Option ExampleProcessor → Result WorkerError (Option ExampleProcessor)
unless_missing [] example = ok example
unless_missing (name ∷ names) example = err (missing_processors (name ∷ names))

-- buildWorkerDeps, of which the deps' Example is kept.
unfoldable pub build_worker_deps : Config → Registry → Result WorkerError (Option ExampleProcessor)
unfolding required_processors is_production
build_worker_deps cfg reg =
    let example = if reg.pool then some service_processor else none in
    if is_production cfg.env
    then unless_missing (missing_of (required_processors example)) example
    else ok example

abbrev pub registered :
    Result WorkerError (Option ExampleProcessor) → Result WorkerError ExampleProcessor
registered (err e) = err e
registered (ok example) = ok (register_handlers example)

abbrev pub validated :
    Option WorkerError → Result WorkerError ExampleProcessor → Result WorkerError ExampleProcessor
validated (some e) next = err e
validated none next = next

-- NewWorker, of which the processor of the example tasks is kept.
unfoldable pub new_worker : Config → Registry → Result WorkerError ExampleProcessor
unfolding validate_worker_registry build_worker_deps register_handlers
new_worker cfg reg =
    validated (validate_worker_registry cfg) (registered (build_worker_deps cfg reg))
