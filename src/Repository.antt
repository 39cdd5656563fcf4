-- ===== src/Repository.antt =====
-- internal/repository/example.go, with dbFromContext of tx.go. The queries that sqlc generates run in
-- Postgres, which is not part of the repository: `Postgres` has a connection's view of the table
-- `examples` and the inserts of queries/example.sql, with what is documented of them. A statement may
-- fail after it took effect, as when the connection is lost before the answer.
pub mod Tx
pub mod Listing
use go_skeleton.Base.{
  ℕ, suc, ◌≡◌, ◌≤◌, ◌⊎◌, String, Bool, true, false, Option, none, some, List, [], ◌∷◌, ◌++◌, Result,
  ok, err, if◌then◌else◌,
}
use go_skeleton.Base.Text.{Bytes, beq}
use go_skeleton.Model.{Example}

-- A row of `examples`.
pub record Row : Type 0 where
  pub example : Example
  pub task_key : Option Bytes

-- pgx.ErrNoRows, or any other error.
pub data PgError : Type 0 where
  no_rows : PgError
  failed : String → PgError

abbrev pub has_key : Bytes → Row → Bool
has_key key row = elim row.task_key [ none ↦ false | some k ↦ beq k key ]

-- The number of rows with a task key.
abbrev pub count_key : Bytes → List Row → ℕ
count_key key [] = 0
count_key key (row ∷ rows) =
    if has_key key row then suc (count_key key rows) else count_key key rows

-- One more row, with what the statement was given.
abbrev pub Inserted : Bytes → Option Bytes → Example → List Row → List Row → Type 0
Inserted name key e before after =
    (e.name ≡ name) × (after ≡ before ++ record { example = e; task_key = key } ∷ [])

-- What a statement that fails leaves.
abbrev pub Uncertain : Bytes → Option Bytes → List Row → List Row → Type 0
Uncertain name key before after =
    (after ≡ before) ⊎ ((e : Example) × Inserted name key e before after)

pub record Postgres : Type 1 where
  pub Connection : Type 0
  pub Database : Type 0
  pub rows : Connection → Database → List Row
  pub create_example : Connection → Bytes → Database → Result PgError Example × Database
  pub create_example_with_task_key :
      Connection → Bytes → Bytes → Database → Result PgError Example × Database
  pub created :
      (c : Connection) (name : Bytes) (d d' : Database) (e : Example)
      → create_example c name d ≡ (ok e, d')
      → Inserted name none e (rows c d) (rows c d')
  pub not_created :
      (c : Connection) (name : Bytes) (d d' : Database) (e : PgError)
      → create_example c name d ≡ (err e, d')
      → Uncertain name none (rows c d) (rows c d')
  -- The unique index on task_key, and ON CONFLICT (task_key) DO NOTHING, which returns no row.
  pub keyed :
      (c : Connection) (name key : Bytes) (d d' : Database) (e : Example)
      → create_example_with_task_key c name key d ≡ (ok e, d')
      → (count_key key (rows c d) ≡ 0) × Inserted name (some key) e (rows c d) (rows c d')
  pub conflict :
      (c : Connection) (name key : Bytes) (d d' : Database)
      → create_example_with_task_key c name key d ≡ (err no_rows, d')
      → (1 ≤ count_key key (rows c d)) × (rows c d' ≡ rows c d)
  pub not_keyed :
      (c : Connection) (name key : Bytes) (d d' : Database) (message : String)
      → create_example_with_task_key c name key d ≡ (err (failed message), d')
      → (rows c d' ≡ rows c d)
        ⊎ ((count_key key (rows c d) ≡ 0)
            × ((e : Example) × Inserted name (some key) e (rows c d) (rows c d')))

module _ (p : Postgres) where
  open p use {Connection, Database, create_example, create_example_with_task_key}

  -- The transaction of the context, or else the pool.
  unfoldable pub db_from_context : Option Connection → Connection → Connection
  db_from_context none db = db
  db_from_context (some tx) db = tx

  -- Create, with the row that it fills the example with.
  unfoldable pub create :
      Option Connection → Connection → Example → Database → Result PgError Example × Database
  unfolding db_from_context
  create tx db example d = create_example (db_from_context tx db) example.name d

  -- CreateWithTaskKey: the example, and whether it was created.
  abbrev pub if_created :
      Example → Result PgError Example × Database → Result PgError (Example × Bool) × Database
  if_created example (ok row, d) = (ok (row, true), d)
  if_created example (err no_rows, d) = (ok (example, false), d)
  if_created example (err (failed message), d) = (err (failed message), d)

  unfoldable pub create_with_task_key :
      Option Connection
      → Connection
      → Example
      → Bytes
      → Database
      → Result PgError (Example × Bool) × Database
  unfolding db_from_context
  create_with_task_key tx db example key d =
      if_created example (create_example_with_task_key (db_from_context tx db) example.name key d)
