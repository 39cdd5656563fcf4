-- ===== src/Middleware/Recovery.antt =====
-- internal/middleware/recovery.go: a panic below becomes an answer. Its log line is not modelled.
use go_skeleton.Errcode
use go_skeleton.Wire.{Body}
use go_skeleton.Gin.{Gin, Outcome, returned, panicked, Middleware}
use go_skeleton.Response.{abort_error}

module _ (g : Gin Body) where
  open g use {Context}

  -- The deferred function.
  abbrev pub recovered : Outcome Context → Outcome Context
  recovered (returned c) = returned c
  recovered (panicked c) = returned (abort_error g Errcode.internal_error c)

  unfoldable pub recovery : Middleware Context
  recovery next c = recovered (next c)
