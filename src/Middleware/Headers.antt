-- ===== src/Middleware/Headers.antt =====
-- internal/middleware/security_headers.go and body_limit.go.
use go_skeleton.Base.{Bool, ◌&&◌, some, if◌then◌else◌}
use go_skeleton.Base.Int.{ℤ, pos, pos_part, ltb_ℤ}
use go_skeleton.Base.Text.{codes}
use go_skeleton.Gin.{Gin, Middleware}

module _ {B : Type 0} (g : Gin B) where
  open g use {Context, view, header, set_request}

  unfoldable pub security_headers : Bool → Middleware Context
  security_headers enabled next c = next (
      if enabled
      then header "Referrer-Policy" (codes "no-referrer") (
          header "X-Frame-Options" (codes "DENY")
            (header "X-Content-Type-Options" (codes "nosniff") c))
      else c)

  -- http.MaxBytesReader is the request's `body_limit`.
  unfoldable pub max_body_bytes : ℤ → Middleware Context
  max_body_bytes limit next c =
      let request = (view c).request in
      next (
        if ltb_ℤ (pos 0) limit && request.has_body
        then set_request (record request { body_limit = some (pos_part limit) }) c
        else c)
