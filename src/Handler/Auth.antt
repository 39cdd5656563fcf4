-- ===== src/Handler/Auth.antt =====
-- internal/handler/auth.go: issuing a token, and the subject of the token of a request. The logging of
-- a failure is left out. What c.ShouldBindJSON gives, the subject or an error's text, is an argument.
pub mod Exchange
use go_skeleton.Base.{
  String, Bool, true, false, not, Option, none, some, Result, ok, err, if◌then◌else◌,
}
use go_skeleton.Base.Text.{Bytes}
use go_skeleton.Errcode
use go_skeleton.Wire.{Body, token, me}
use go_skeleton.Gin.{Gin, View, Handler, returned}
use go_skeleton.Response.{coded, write_success, write_error, write_validation_error}
use go_skeleton.Auth.{Jwt, JwtManager, AuthError, missing_subject, generate_token}
use go_skeleton.Middleware.BearerAuth.{auth_subject}

-- handler.AuthHandler
pub record AuthHandler : Type 0 where
  pub manager : Option JwtManager
  pub dev_token_available : Bool

module _ (j : Jwt) (g : Gin Body) where
  open g use {Context, view}

  -- The answer to a GenerateToken.
  unfoldable pub issued : Result AuthError Bytes → Context → Context
  issued (ok signed) c =
      write_success g (token (record { access_token = signed; token_type = "Bearer" })) c
  issued (err missing_subject) c = write_error g (coded Errcode.invalid_params) c
  issued (err _) c = write_error g (coded Errcode.internal_error) c

  abbrev bound : JwtManager → Result String Bytes → Context → Context
  bound manager (err message) c = write_validation_error g message c
  bound manager (ok subject) c = issued (generate_token j manager (view c).now subject) c

  abbrev with_manager : Option JwtManager → Bool → Result String Bytes → Context → Context
  with_manager none available request c = write_error g (coded Errcode.service_disabled) c
  with_manager (some manager) available request c =
      if not available
      then write_error g (coded Errcode.service_disabled) c
      else bound manager request c

  unfoldable pub create_token : AuthHandler → Result String Bytes → Handler Context
  unfolding issued
  create_token h request c = returned (with_manager h.manager h.dev_token_available request c)

module _ (g : Gin Body) where
  open g use {Context}

  unfoldable pub me_handler : Handler Context
  me_handler c = returned (write_success g (me (record { subject = auth_subject g c })) c)
