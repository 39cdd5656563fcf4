-- ===== src/Database/Tracer/Levels.antt =====
-- Which queries each level of the log keeps.
use go_skeleton.Base.{ℕ, ◌≤◌, ◌-◌, ltb, ◌≡◌, ◌↔◌, refl, false, Option, none, some, arith}
use go_skeleton.Base.Text.{Bytes}
use go_skeleton.Database.{LogLevel, log_silent, log_warn}
use go_skeleton.Database.Tracer.{
  slow_query_threshold, rank, TraceData, QueryError, QueryEntry, trace_query_start, query_outcome,
  trace_query_end,
}

-- A level keeps every entry of the levels below it, word for word.
logged_more :
    (l l' : LogLevel) (now : ℕ) (error : Option QueryError) (rows : ℕ) (ctx : Option TraceData)
    (e : QueryEntry)
    → rank l ≤ rank l'
    → trace_query_end l now error rows ctx ≡ some e
    → trace_query_end l' now error rows ctx ≡ some e
unfolding trace_query_end
logged_more l l' now error rows none e below logged = ground arith
logged_more l l' now error rows (some td) e below logged = ground arith

-- No query is logged at silent, whatever its context carries.
silent_logs_nothing :
    (now : ℕ) (error : Option QueryError) (rows : ℕ) (ctx : Option TraceData)
    → trace_query_end log_silent now error rows ctx ≡ none
unfolding trace_query_end query_outcome rank
silent_logs_nothing now error rows none = refl
silent_logs_nothing now none rows (some td) = ground arith
silent_logs_nothing now (some e) rows (some td) = ground arith

-- At warn, a query goes without an entry exactly when it succeeded and took no longer than 200 ms.
quiet_at_warn_iff :
    (start now : ℕ) (sql : Bytes) (error : Option QueryError) (rows : ℕ) (ctx : Option TraceData)
    → (trace_query_end log_warn now error rows (trace_query_start log_warn start sql ctx) ≡ none)
      ↔ (error ≡ none) × (ltb slow_query_threshold (now - start) ≡ false)
unfolding trace_query_start trace_query_end query_outcome rank
quiet_at_warn_iff start now sql none rows ctx = (λ h. (refl, ground arith), λ h. ground arith)
quiet_at_warn_iff start now sql (some e) rows ctx = (λ h. ground arith, λ h. ground arith)
