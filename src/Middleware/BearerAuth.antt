-- ===== src/Middleware/BearerAuth.antt =====
-- internal/middleware/auth.go: the check of the Authorization header.
use go_skeleton.Base.{String, Option, none, some, [], Result, ok, err}
use go_skeleton.Base.Text.{Bytes}
use go_skeleton.Errcode
use go_skeleton.Wire.{Body}
use go_skeleton.Gin.{Gin, Value, text, returned, Middleware}
use go_skeleton.Response.{abort_error}
use go_skeleton.Auth.{Jwt, JwtManager, Claims, AuthError, parse_token}

abbrev pub auth_subject_key : String
auth_subject_key = "auth_subject"

-- c.GetString: "" unless the key has a text.
abbrev pub text_or_empty : Option Value → Bytes
text_or_empty (some (text s)) = s
text_or_empty _ = []

module _ (j : Jwt) (g : Gin Body) where
  open g use {Context, view, set}

  abbrev pub authorised : Result AuthError Claims → Middleware Context
  authorised (err e) next c = returned (abort_error g Errcode.unauthorized c)
  authorised (ok claims) next c = next (set auth_subject_key (text claims.subject) c)

  unfoldable pub bearer_auth : Option JwtManager → Middleware Context
  bearer_auth none next c = returned (abort_error g Errcode.unauthorized c)
  bearer_auth (some manager) next c =
      let v = view c in
      authorised (parse_token j manager v.now (v.request.headers "Authorization")) next c

module _ (g : Gin Body) where
  open g use {Context, view}

  unfoldable pub auth_subject : Context → Bytes
  auth_subject c = text_or_empty ((view c).keys auth_subject_key)
