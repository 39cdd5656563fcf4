-- ===== src/Repository/Tx.antt =====
-- internal/repository/tx.go: running a callback in a transaction. pgx.BeginTxFunc is not part of the
-- repository: `Transactions` has it with what is documented of it, over connections C and a state S of
-- the database, other clients' changes included.
use go_skeleton.Base.{
  String, ◌≡◌, refl, sym, subst, Bool, true, false, Option, none, some, Result, ok, err,
}

-- sql.IsolationLevel
pub data IsolationLevel : Type 0 where
  level_default level_read_uncommitted level_read_committed level_write_committed : IsolationLevel
  level_repeatable_read level_snapshot level_serializable level_linearizable : IsolationLevel

-- sql.TxOptions
pub record TxOptions : Type 0 where
  pub isolation : IsolationLevel
  pub read_only : Bool

-- pgx.TxIsoLevel; the empty one leaves the choice to the server.
pub data TxIsoLevel : Type 0 where
  unset read_uncommitted read_committed repeatable_read serializable : TxIsoLevel

-- pgx.TxOptions, as far as it is set.
pub record PgxTxOptions : Type 0 where
  pub iso_level : TxIsoLevel
  pub is_read_only : Bool

pub data TxError : Type 0 where
  nil_tx_fn nil_db : TxError
  unsupported_isolation : IsolationLevel → TxError
  driver_error : String → TxError

-- How a callback ends.
pub data Ran (A : Type 0) : Type 0 where
  done : A → Ran A
  failed_with : TxError → Ran A
  panicked_with : String → Ran A

abbrev pub iso_level_of : IsolationLevel → Option TxIsoLevel
iso_level_of level_default = some unset
iso_level_of level_read_uncommitted = some read_uncommitted
iso_level_of level_read_committed = some read_committed
iso_level_of level_repeatable_read = some repeatable_read
iso_level_of level_serializable = some serializable
iso_level_of level_write_committed = none
iso_level_of level_snapshot = none
iso_level_of level_linearizable = none

abbrev pub mapped : TxOptions → Option TxIsoLevel → Result TxError PgxTxOptions
mapped opts none = err (unsupported_isolation opts.isolation)
mapped opts (some level) = ok (record { iso_level = level; is_read_only = opts.read_only })

unfoldable pub to_pgx_tx_options : Option TxOptions → Result TxError PgxTxOptions
to_pgx_tx_options none = ok (record { iso_level = unset; is_read_only = false })
to_pgx_tx_options (some opts) = mapped opts (iso_level_of opts.isolation)

pub record Transactions (C S : Type 0) : Type 1 where
  -- A connection in a transaction that was begun with these options.
  pub IsTx : PgxTxOptions → C → Type 0
  pub begin_tx_func : {A : Type 0} → PgxTxOptions → (C → S → Ran A × S) → S → Ran A × S
  -- Only a callback that returns nil, in the transaction, makes BeginTxFunc do so.
  pub committed :
      {A : Type 0} (opts : PgxTxOptions) (fn : C → S → Ran A × S) (s s' : S) (a : A)
      → begin_tx_func opts fn s ≡ (done a, s')
      → (c : C) × (s1 : S) × (s2 : S) × IsTx opts c × (fn c s1 ≡ (done a, s2))

module _ {C S A : Type 0} (t : Transactions C S) where
  open t use {begin_tx_func}

  abbrev pub begun : (C → S → Ran A × S) → S → Result TxError PgxTxOptions → Ran A × S
  begun fn s (err e) = (failed_with e, s)
  begun fn s (ok opts) = begin_tx_func opts fn s

  abbrev pub with_db : Bool → Option TxOptions → (C → S → Ran A × S) → S → Ran A × S
  with_db false opts fn s = (failed_with nil_db, s)
  with_db true opts fn s = begun fn s (to_pgx_tx_options opts)

  abbrev pub with_fn : Option C → Bool → Option TxOptions → (C → S → Ran A × S) → S → Ran A × S
  with_fn (some tx) db opts fn s = fn tx s
  with_fn none db opts fn s = with_db db opts fn s

  -- InTxWithOptions: `tx` is the transaction of the context, if it has one, and `db` says that db is not
  -- nil. The callback takes the connection that dbFromContext finds in its context.
  unfoldable pub in_tx_with_options :
      Option C → Bool → Option TxOptions → Option (C → S → Ran A × S) → S → Ran A × S
  unfolding to_pgx_tx_options
  in_tx_with_options tx db opts none s = (failed_with nil_tx_fn, s)
  in_tx_with_options tx db opts (some fn) s = with_fn tx db opts fn s

-- The level of database/sql that a level of pgx stands for.
abbrev pub level_of : TxIsoLevel → IsolationLevel
level_of unset = level_default
level_of read_uncommitted = level_read_uncommitted
level_of read_committed = level_read_committed
level_of repeatable_read = level_repeatable_read
level_of serializable = level_serializable

of_ok : {p q : PgxTxOptions} → ◌≡◌ {A = Result TxError PgxTxOptions} (ok p) (ok q) → p ≡ q
of_ok e = cc

-- A transaction of no options, or with the options that were asked for.
abbrev pub AsAsked : Option TxOptions → PgxTxOptions → Type 0
AsAsked none p = (p.iso_level ≡ unset) × (p.is_read_only ≡ false)
AsAsked (some opts) p = (level_of p.iso_level ≡ opts.isolation) × (p.is_read_only ≡ opts.read_only)

mapped-AsAsked :
    (opts : TxOptions) (level : IsolationLevel) (p : PgxTxOptions)
    → opts.isolation ≡ level
    → mapped opts (iso_level_of level) ≡ ok p
    → AsAsked (some opts) p
mapped-AsAsked opts level_default p e h = subst (AsAsked (some opts)) (of_ok h) (sym e, refl)
mapped-AsAsked opts level_read_uncommitted p e h =
    subst (AsAsked (some opts)) (of_ok h) (sym e, refl)
mapped-AsAsked opts level_read_committed p e h = subst (AsAsked (some opts)) (of_ok h) (sym e, refl)
mapped-AsAsked opts level_repeatable_read p e h =
    subst (AsAsked (some opts)) (of_ok h) (sym e, refl)
mapped-AsAsked opts level_serializable p e h = subst (AsAsked (some opts)) (of_ok h) (sym e, refl)
mapped-AsAsked opts level_write_committed p e h = cc
mapped-AsAsked opts level_snapshot p e h = cc
mapped-AsAsked opts level_linearizable p e h = cc

to_pgx_tx_options-AsAsked :
    (opts : Option TxOptions) (p : PgxTxOptions) → to_pgx_tx_options opts ≡ ok p → AsAsked opts p
unfolding to_pgx_tx_options
to_pgx_tx_options-AsAsked none p h = subst (AsAsked none) (of_ok h) (refl, refl)
to_pgx_tx_options-AsAsked (some opts) p h = mapped-AsAsked opts opts.isolation p refl h

-- Where a callback that succeeded has run.
pub data RanIn {C S A : Type 0} (t : Transactions C S) (opts : Option TxOptions)
    (f : C → S → Ran A × S) (a : A) : Option C → Type 0 where
  in_same : (c : C) (s s' : S) → f c s ≡ (done a, s') → RanIn t opts f a (some c)
  in_new :
      (p : PgxTxOptions) (c : C) (s s' : S)
      → AsAsked opts p
      → t.IsTx p c
      → f c s ≡ (done a, s')
      → RanIn t opts f a none

module _ {C S A : Type 0} (t : Transactions C S) where
  -- InTxWithOptions returns nil only if the callback did, in the transaction that the context carries, or
  -- else in a new one with the isolation and the access mode that were asked for: a level that Postgres
  -- does not have is never replaced by another one.
  pub in_tx_with_options-RanIn :
      (tx : Option C) (db : Bool) (opts : Option TxOptions) (f : C → S → Ran A × S) (s s' : S)
      (a : A)
      → in_tx_with_options t tx db opts (some f) s ≡ (done a, s')
      → RanIn t opts f a tx
  unfolding in_tx_with_options
  in_tx_with_options-RanIn (some c) db opts f s s' a h = in_same c s s' h
  in_tx_with_options-RanIn none false opts f s s' a h = cc
  in_tx_with_options-RanIn none true opts f s s' a h = of_options (to_pgx_tx_options opts) refl h
    where
      of_options :
          (r : Result TxError PgxTxOptions)
          → to_pgx_tx_options opts ≡ r
          → begun t f s r ≡ (done a, s')
          → RanIn t opts f a none
      of_options (err e) p h = cc
      of_options (ok o) p h =
          let (c, s1, s2, is_tx, ran) = t.committed o f s s' a h in
          in_new o c s1 s2 (to_pgx_tx_options-AsAsked opts o p) is_tx ran
