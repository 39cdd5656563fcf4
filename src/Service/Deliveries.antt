-- ===== src/Service/Deliveries.antt =====
-- Tasks are delivered at least once: ProcessExample, run on any sequence of deliveries.
use go_skeleton.Base.{
  ℕ, ◌+◌, ◌≤◌, ◌≡◌, ◌≢◌, ◌⊎◌, inl, inr, refl, sym, ap, ◌∙◌, subst, Bool, true, Option, none, some,
  List, [], ◌∷◌, ◌++◌, Result, ok, err, if◌then◌else◌, Bool-cases, arith,
}
use mathlib.Core.List.{Memᴰ}
use go_skeleton.Base.Text.{Bytes, is_empty, beq, beq_iff}
use go_skeleton.Model.{Example, named}
use go_skeleton.Task.{ExamplePayload}
use go_skeleton.Repository.{
  Postgres, PgError, no_rows, failed, Row, has_key, count_key, Inserted, Uncertain, create,
  create_with_task_key, if_created, db_from_context,
}
use go_skeleton.Service.{process_example, keyed_answer, keyless_answer}

count_key-append :
    (key : Bytes) (xs ys : List Row)
    → count_key key (xs ++ ys) ≡ count_key key xs + count_key key ys
count_key-append key [] ys = omega arith
count_key-append key (x ∷ xs) ys = ground (arith, count_key-append key xs ys)

-- One row more with the key `own`.
count-Inserted :
    (key name : Bytes) (own : Option Bytes) (e : Example) (before after : List Row)
    → Inserted name own e before after
    → count_key key after
      ≡ count_key key before
        + (if has_key key (record { example = e; task_key = own }) then 1 else 0)
count-Inserted key name own e before after (_, h) =
    rw h (count_key-append key before _ ∙ ground arith)

empty_of : (s : Bytes) → is_empty s ≡ true → s ≡ []
empty_of [] h = refl
empty_of (c ∷ s) h = cc

module _ (p : Postgres) (tx : Option p.Connection) (db : p.Connection) where
  open p use {Connection, Database, rows}

  -- What the connection that the repository uses sees.
  abbrev pub stored : Database → List Row
  stored d = rows (db_from_context p tx db) d

  -- The answers of a sequence of deliveries, each started when the one before has ended, and the
  -- database after them.
  abbrev pub deliver :
      List ExamplePayload → Database → List (ExamplePayload × Result PgError (Unit {0})) × Database
  deliver [] d = ([], d)
  deliver (payload ∷ more) d =
      let (answer, d') = process_example p tx db payload d in
      let (answers, d'') = deliver more d' in ((payload, answer) ∷ answers, d'')

  -- What one delivery does to the rows with the key.
  record Step (key : Bytes) (payload : ExamplePayload) (before after : ℕ)
      (answer : Result PgError (Unit {0})) : Type 0 where
    unique : before ≤ 1 → after ≤ 1
    kept : before ≤ after
    done : payload.task_key ≡ key → answer ≡ ok tt → 1 ≤ after

  module _ (key : Bytes) (payload : ExamplePayload) (d : Database) where
    -- The key of an insert that found no row with its own.
    fresh_for_key :
        (b : Bool)
        → beq payload.task_key key ≡ b
        → count_key payload.task_key (stored d) ≡ 0
        → b ≡ true
        → count_key key (stored d) ≡ 0
    fresh_for_key b e none_yet t =
        subst (λ k. count_key k (stored d) ≡ 0) ((beq_iff payload.task_key key).0 (e ∙ t)) none_yet

    keyed_insert :
        (e : Example) (d' : Database) (answer : Result PgError (Unit {0}))
        → count_key payload.task_key (stored d) ≡ 0
        → Inserted payload.name (some payload.task_key) e (stored d) (stored d')
        → Step key payload (count_key key (stored d)) (count_key key (stored d')) answer
    keyed_insert e d' answer none_yet inserted =
        let counted =
          count-Inserted key payload.name (some payload.task_key) e (stored d) (stored d')
            inserted in
        let fresh = fresh_for_key (beq payload.task_key key) refl none_yet in
        let own = (beq_iff payload.task_key key).1 in
        record {
          unique = λ h. ground arith;
          kept = ground arith;
          done = λ e _. ground (arith, own e);
        }

    unchanged :
        (d' : Database) (answer : Result PgError (Unit {0}))
        → stored d' ≡ stored d
        → (payload.task_key ≡ key → answer ≡ ok tt → 1 ≤ count_key key (stored d))
        → Step key payload (count_key key (stored d)) (count_key key (stored d')) answer
    unchanged d' answer same done =
        rw same (record { unique = λ h. h; kept = omega arith; done = done })

    keyed-Step :
        (r : Result PgError Example × Database)
        → p.create_example_with_task_key (db_from_context p tx db) payload.name payload.task_key d
          ≡ r
        → let end = keyed_answer p (if_created p (named payload.name) r) in
          Step key payload (count_key key (stored d)) (count_key key (stored end.1)) end.0
    keyed-Step (ok e, d') h =
        let (none_yet, inserted) = p.keyed _ _ _ d d' e h in
        keyed_insert e d' (ok tt) none_yet inserted
    keyed-Step (err no_rows, d') h =
        let (present, same) = p.conflict _ _ _ d d' h in
        unchanged d' (ok tt) same (λ e _. subst (λ k. 1 ≤ count_key k (stored d)) e present)
    keyed-Step (err (failed message), d') h = uncertain (p.not_keyed _ _ _ d d' message h)
      where
        uncertain :
            (stored d' ≡ stored d)
              ⊎ ((count_key payload.task_key (stored d) ≡ 0)
                  × ((e : Example) × Inserted payload.name
                        (some payload.task_key)
                        e
                        (stored d)
                        (stored d')))
            → Step key payload
                (count_key key (stored d))
                (count_key key (stored d'))
                (err (failed message))
        uncertain (inl same) = unchanged d' _ same (λ _ e. cc)
        uncertain (inr (none_yet, (e, inserted))) = keyed_insert e d' _ none_yet inserted

    keyless_insert :
        is_empty payload.task_key ≡ true
        → key ≢ []
        → (e : Example) (d' : Database) (answer : Result PgError (Unit {0}))
        → Inserted payload.name none e (stored d) (stored d')
        → Step key payload (count_key key (stored d)) (count_key key (stored d')) answer
    keyless_insert blank n e d' answer inserted =
        let counted = count-Inserted key payload.name none e (stored d) (stored d') inserted in
        let same : count_key key (stored d') ≡ count_key key (stored d) = omega (arith, counted) in
        rw same (record {
          unique = λ h. h;
          kept = omega arith;
          done = λ e _. absurd (n (sym e ∙ empty_of payload.task_key blank));
        })

    keyless-Step :
        is_empty payload.task_key ≡ true
        → key ≢ []
        → (r : Result PgError Example × Database)
        → p.create_example (db_from_context p tx db) payload.name d ≡ r
        → let end = keyless_answer p r in
          Step key payload (count_key key (stored d)) (count_key key (stored end.1)) end.0
    keyless-Step blank n (ok e, d') h = keyless_insert blank n e d' (ok tt) (p.created _ _ d d' e h)
    keyless-Step blank n (err e, d') h = uncertain (p.not_created _ _ d d' e h)
      where
        uncertain :
            Uncertain payload.name none (stored d) (stored d')
            → Step key payload (count_key key (stored d)) (count_key key (stored d')) (err e)
        uncertain (inl same) = unchanged d' _ same (λ _ e. cc)
        uncertain (inr (e, inserted)) = keyless_insert blank n e d' _ inserted

    process_example-Step :
        key ≢ []
        → let end = process_example p tx db payload d in
          Step key payload (count_key key (stored d)) (count_key key (stored end.1)) end.0
    unfolding process_example create create_with_task_key
    process_example-Step n = elim (Bool-cases (is_empty payload.task_key)) [
      | inl blank ↦ rw blank (keyless-Step blank n _ refl)
      | inr given ↦ rw given (keyed-Step _ refl)
    ]

  -- However often tasks are delivered and redelivered, with a failure of the database at any of them,
  -- also one that comes after the row was stored: if at most one row has a task key at first, at most
  -- one has it in the end, and as soon as one delivery of a task with that key has returned nil, there
  -- is exactly one. No delivery takes a row with the key away.
  pub deliver_once :
      (key : Bytes) (deliveries : List ExamplePayload) (d : Database)
      → key ≢ []
      → count_key key (stored d) ≤ 1
      → let (answers, d') = deliver deliveries d in
        (count_key key (stored d') ≤ 1)
        × (count_key key (stored d) ≤ count_key key (stored d'))
        × ((payload : ExamplePayload)
            → Memᴰ (payload, ok tt) answers
            → payload.task_key ≡ key
            → count_key key (stored d') ≡ 1)
  deliver_once key [] d n h = (h, omega arith, λ _ m. elim m [ ])
  deliver_once key (payload ∷ more) d n h =
      let step = process_example-Step key payload d n in
      let (most, least, done) =
        deliver_once key more (process_example p tx db payload d).1 n (step.unique h) in
      (
        most,
        omega (arith, step.kept),
        λ other m same. elim m [
          | Memᴰ.head e ↦
              omega
                (arith, step.done (ap (λ q. q.0.task_key) (sym e) ∙ same) (ap (λ q. q.1) (sym e)))
          | Memᴰ.tail t ↦ done other t same
        ],
      )
