-- ===== src/Service/Tests.antt =====
-- A database that keeps the rows, and redeliveries of one task on it.
use mathlib.Core.List.{Memᴰ}
use go_skeleton.Base.{
  true, ℕ, zero, suc, ◌≤◌, ◌≡◌, refl, sym, ap, ◌∙◌, Option, none, some, List, [], ◌∷◌, ◌++◌, Result,
  ok, err, arith, length, String,
}
use go_skeleton.Base.Int.{pos}
use go_skeleton.Base.Text.{Bytes, codes, beq}
use go_skeleton.Model.{Example}
use go_skeleton.Task.{ExamplePayload}
use go_skeleton.Repository.{
  Postgres, PgError, no_rows, failed, Row, count_key, Inserted, create, create_with_task_key,
  db_from_context,
}
use go_skeleton.Service.{process_example}
use go_skeleton.Service.Queueing.{enqueue_task}
use go_skeleton.Task.{new_example_payload}
use go_skeleton.Service.Deliveries.{deliver, deliver_once}

abbrev Answer : Type 0
Answer = Result PgError Example × List Row

abbrev example_after : Bytes → List Row → Example
example_after name rows = record {
  id = suc (length rows);
  name = name;
  created_at = 0;
  updated_at = 0;
}

abbrev insert_row : Bytes → Option Bytes → List Row → Answer
insert_row name key rows = (
  ok (example_after name rows),
  rows ++ record { example = example_after name rows; task_key = key } ∷ [],
)

abbrev insert_keyed : Bytes → Bytes → List Row → ℕ → Answer
insert_keyed name key rows zero = insert_row name (some key) rows
insert_keyed name key rows (suc n) = (err no_rows, rows)

inserted :
    (name : Bytes) (key : Option Bytes) (rows rows' : List Row) (e : Example)
    → insert_row name key rows ≡ (ok e, rows')
    → Inserted name key e rows rows'
inserted name key rows rows' e h =
    let same : example_after name rows ≡ e = cc in
    let tail : rows ++ record { example = example_after name rows; task_key = key } ∷ [] ≡ rows' =
      cc in
    (
      ap (λ (x : Example). x.name) (sym same),
      sym tail ∙ ap (λ (x : Example). rows ++ record { example = x; task_key = key } ∷ []) same,
    )

keyed_ok :
    (name key : Bytes) (rows rows' : List Row) (e : Example) (n : ℕ)
    → insert_keyed name key rows n ≡ (ok e, rows')
    → (n ≡ 0) × Inserted name (some key) e rows rows'
keyed_ok name key rows rows' e zero h = (refl, inserted name (some key) rows rows' e h)
keyed_ok name key rows rows' e (suc n) h = cc

keyed_conflict :
    (name key : Bytes) (rows rows' : List Row) (n : ℕ)
    → insert_keyed name key rows n ≡ (err no_rows, rows')
    → (1 ≤ n) × (rows' ≡ rows)
keyed_conflict name key rows rows' zero h = cc
keyed_conflict name key rows rows' (suc n) h = (omega arith, cc)

never_failed :
    (name key : Bytes) (rows rows' : List Row) (n : ℕ) (message : String) {P : Type 0}
    → insert_keyed name key rows n ≡ (err (failed message), rows')
    → P
never_failed name key rows rows' zero message h = cc
never_failed name key rows rows' (suc n) message h = cc

never_fails :
    (name : Bytes) (key : Option Bytes) (rows rows' : List Row) (e : PgError) {P : Type 0}
    → insert_row name key rows ≡ (err e, rows')
    → P
never_fails name key rows rows' e h = cc

abbrev in_memory : Postgres
in_memory = record {
  Connection = Unit {0};
  Database = List Row;
  rows = λ c d. d;
  create_example = λ c name d. insert_row name none d;
  create_example_with_task_key = λ c name key d. insert_keyed name key d (count_key key d);
  created = λ c name d d' e h. inserted name none d d' e h;
  not_created = λ c name d d' e h. never_fails name none d d' e h;
  keyed = λ c name key d d' e h. keyed_ok name key d d' e (count_key key d) h;
  conflict = λ c name key d d' h. keyed_conflict name key d d' (count_key key d) h;
  not_keyed = λ c name key d d' message h. never_failed name key d d' (count_key key d) message h;
}

abbrev task : ExamplePayload
task = record {
  header = record { version = pos 1; trace_id = [] };
  name = codes "a";
  task_key = codes "k1";
}

abbrev other_task : ExamplePayload
other_task = record task { task_key = codes "k2" }

abbrev deliveries : List ExamplePayload
deliveries = task ∷ other_task ∷ task ∷ []

two_rows : length (deliver in_memory none tt deliveries []).1 ≡ 2
unfolding process_example create create_with_task_key db_from_context beq
two_rows = refl

deliver_once_example :
    let (answers, d') = deliver in_memory none tt deliveries [] in
    (count_key (codes "k1") d' ≤ 1)
    × (0 ≤ count_key (codes "k1") d')
    × ((payload : ExamplePayload)
        → Memᴰ (payload, ok tt) answers
        → payload.task_key ≡ codes "k1"
        → count_key (codes "k1") d' ≡ 1)
unfolding process_example create create_with_task_key db_from_context beq
deliver_once_example =
    deliver_once in_memory none tt (codes "k1") deliveries [] (λ e. cc) (omega arith)

-- A queue that keeps what it takes, of payloads that stand for their names.
abbrev encode : ExamplePayload → Result String Bytes
encode payload = ok payload.name

abbrev push : Bytes → List Bytes → Result String (Unit {0}) × List Bytes
push payload queue = (ok tt, payload ∷ queue)

queued_now :
    enqueue_task encode push (some true) (codes "k1") (codes "a") [] []
    ≡ (ok (record { queued = true }), codes "a" ∷ [])
unfolding enqueue_task new_example_payload
queued_now = refl
