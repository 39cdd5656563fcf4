-- ===== src/Middleware/Timeout.antt =====
-- internal/middleware/timeout.go: a deadline for the request, and an answer if none was written.
pub mod Answer
use go_skeleton.Base.{
  ℕ, ◌+◌, Bool, true, false, Option, none, some, List, [], ◌∷◌, if◌then◌else◌, leb,
}
use go_skeleton.Base.Int.{ℤ, pos, pos_part, leb_ℤ}
use go_skeleton.Errcode
use go_skeleton.Model.{Time}
use go_skeleton.Wire.{Body}
use go_skeleton.Gin.{Gin, View, RequestContext, Outcome, returned, ◌>>=◌, Middleware}
use go_skeleton.Response.{abort_error, deadline_exceeded}

-- context.WithTimeout: an earlier deadline of the parent stays.
abbrev pub sooner : Option Time → Time → Time
sooner none t = t
sooner (some d) t = if leb d t then d else t

abbrev pub with_timeout : RequestContext → Time → ℕ → RequestContext
with_timeout ctx now timeout = record ctx { deadline = some (sooner ctx.deadline (now + timeout)) }

-- c.Writer.Written()
abbrev pub written : {B : Type 0} → View B → Bool
written v = elim v.sent [ [] ↦ false | _ ∷ _ ↦ true ]

module _ (g : Gin Body) where
  open g use {Context, view, set_request}

  -- What timeout does once c.Next() is back.
  unfoldable pub after_timeout : RequestContext → Context → Outcome Context
  after_timeout ctx c =
      if written (view c)
      then returned c
      else if deadline_exceeded ctx (view c).now
      then returned (abort_error g Errcode.request_timeout c)
      else returned c

  unfoldable pub timeout : ℤ → Middleware Context
  timeout limit next c =
      let v = view c in
      let ctx = with_timeout v.request.context v.now (pos_part limit) in
      if leb_ℤ limit (pos 0)
      then next c
      else (next (set_request (record v.request { context = ctx }) c) >>= after_timeout ctx)
