-- ===== src/Database/Tracer.antt =====
-- pkg/database/tracer.go: the log of the queries. A context is modelled by what it carries under
-- traceKey, an error of the driver by what errors.Is says of it; the times are nanoseconds of the monotonic
-- clock, which does not run back.
mod Levels
use go_skeleton.Base.{ℕ, ◌*◌, ◌-◌, ltb, Bool, true, false, Option, none, some, if◌then◌else◌}
use go_skeleton.Base.Text.{Bytes, codes}
use go_skeleton.Database.{LogLevel, log_silent, log_error, log_warn, log_info}

-- 200 ms.
abbrev pub slow_query_threshold : ℕ
slow_query_threshold = 200 * 1000000

-- The number of a level.
unfoldable pub rank : LogLevel → ℕ
rank log_silent = 0
rank log_error = 1
rank log_warn = 2
rank log_info = 3

pub record TraceData : Type 0 where
  pub start : ℕ
  pub sql : Bytes

-- What a query ended with: whether errors.Is finds context.Canceled and context.DeadlineExceeded in it.
pub record QueryError : Type 0 where
  pub canceled : Bool
  pub timed_out : Bool

pub data Severity : Type 0 where
  info_level warn_level error_level : Severity

-- zap's last field of an entry.
pub data Extra : Type 0 where
  skip : Extra
  failure : QueryError → Extra
  threshold : ℕ → Extra

pub record QueryEntry : Type 0 where
  pub severity : Severity
  pub message : Bytes
  pub statement : Bytes
  pub rows : ℕ
  pub elapsed : ℕ
  pub extra : Extra

unfoldable pub trace_query_start : LogLevel → ℕ → Bytes → Option TraceData → Option TraceData
trace_query_start log_silent now sql ctx = ctx
trace_query_start log_error now sql ctx = some (record { start = now; sql = sql })
trace_query_start log_warn now sql ctx = some (record { start = now; sql = sql })
trace_query_start log_info now sql ctx = some (record { start = now; sql = sql })

-- The switch of TraceQueryEnd: the level that the entry needs, its severity, its message and its last
-- field.
unfoldable pub query_outcome : Option QueryError → ℕ → LogLevel × Severity × Bytes × Extra
query_outcome (some e) elapsed =
    if e.canceled
    then (log_warn, warn_level, codes "db query canceled", failure e)
    else if e.timed_out
    then (log_warn, warn_level, codes "db query timed out", failure e)
    else (log_error, error_level, codes "db query failed", failure e)
query_outcome none elapsed =
    if ltb slow_query_threshold elapsed
    then (log_warn, warn_level, codes "db slow query", threshold slow_query_threshold)
    else (log_info, info_level, codes "db query", skip)

-- The entry of one outcome.
abbrev pub query_entry : Bytes → ℕ → ℕ → LogLevel × Severity × Bytes × Extra → QueryEntry
query_entry sql rows elapsed (need, severity, message, extra) = record {
  severity = severity;
  message = message;
  statement = sql;
  rows = rows;
  elapsed = elapsed;
  extra = extra;
}

-- The entry that TraceQueryEnd logs, if it logs one.
unfoldable pub trace_query_end :
    LogLevel → ℕ → Option QueryError → ℕ → Option TraceData → Option QueryEntry
unfolding rank query_outcome
trace_query_end level now error rows none = none
trace_query_end level now error rows (some td) =
    let outcome = query_outcome error (now - td.start) in
    if ltb (rank level) (rank outcome.0)
    then none
    else some (query_entry td.sql rows (now - td.start) outcome)
