-- ===== src/Service.antt =====
-- internal/service/example.go: the rules of the resource `example`. Logging is left out.
pub mod Deliveries
pub mod Queueing
pub mod Listing
mod Tests
mod ListingTests
use go_skeleton.Base.{
  String, Bool, true, false, not, ◌||◌, Option, none, some, List, [], ◌∷◌, Result, ok, err,
  if◌then◌else◌,
}
use go_skeleton.Base.Text.{Bytes, is_empty}
use go_skeleton.Errcode
use go_skeleton.Errcode.{Error}
use go_skeleton.Model.{Example, named}
use go_skeleton.Wire.{EnqueueExampleTaskRes}
use go_skeleton.Task.{ExamplePayload, new_example_payload}
use go_skeleton.Repository.{Postgres, PgError, create, create_with_task_key}

module _ (p : Postgres) where
  open p use {Connection, Database}

  abbrev create_answer : Result PgError Example × Database → Result Error Example × Database
  create_answer (ok example, d) = (ok example, d)
  create_answer (err e, d) = (err Errcode.database_error, d)

  unfoldable pub service_create :
      Option Connection → Connection → Bytes → Database → Result Error Example × Database
  service_create tx db name d = create_answer (create p tx db (named name) d)

  -- A repeated task is no error.
  abbrev keyed_answer :
      Result PgError (Example × Bool) × Database → Result PgError (Unit {0}) × Database
  keyed_answer (ok (example, created), d) = (ok tt, d)
  keyed_answer (err e, d) = (err e, d)

  abbrev keyless_answer : Result PgError Example × Database → Result PgError (Unit {0}) × Database
  keyless_answer (ok example, d) = (ok tt, d)
  keyless_answer (err e, d) = (err e, d)

  unfoldable pub process_example :
      Option Connection
      → Connection
      → ExamplePayload
      → Database
      → Result PgError (Unit {0}) × Database
  process_example tx db payload d =
      if not (is_empty payload.task_key)
      then keyed_answer (create_with_task_key p tx db (named payload.name) payload.task_key d)
      else keyless_answer (create p tx db (named payload.name) d)
