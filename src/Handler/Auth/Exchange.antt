-- ===== src/Handler/Auth/Exchange.antt =====
-- The two requests of the token flow: POST /auth/token, and then a request behind BearerAuth.
use go_skeleton.Base.{
  ◌≤◌, ◌<◌, ◌+◌, ◌≡◌, refl, ap, ◌∙◌, true, Option, none, some, [], ◌∷◌, ◌++◌, ok, err,
}
use go_skeleton.Base.Int.{pos_part}
use go_skeleton.Base.Text.{Bytes, trim}
use go_skeleton.Errcode
use go_skeleton.Wire.{Body, Payload, token, me, envelope}
use go_skeleton.Gin.{Gin, View, text, Handler, returned, final}
use go_skeleton.Response.{success_response, write_success, abort_error}
use go_skeleton.Response.Envelope.{Answers, abort_error-Answers}
use go_skeleton.Auth.{Jwt, JwtManager, AuthError, generate_token, new_claims, parse_token}
use go_skeleton.Auth.Tokens.{IsHeader, parse_token-generate_token}
use go_skeleton.Middleware.BearerAuth.{bearer_auth, auth_subject, auth_subject_key, authorised}
use go_skeleton.Handler.Auth.{AuthHandler, create_token, issued, me_handler}

-- The context has one more response: 200 with the payload in a success envelope.
abbrev pub Succeeds : Payload → View Body → View Body → Type 0
Succeeds p before after =
    after.sent ≡ before.sent ++ (200, some (envelope (success_response p))) ∷ []

module _ (g : Gin Body) where
  open g use {Context, view}

  pub write_success-Succeeds :
      (p : Payload) (c : Context) → Succeeds p (view c) (view (write_success g p c))
  unfolding write_success
  write_success-Succeeds p c = rw (g.view-json, g.view-set) refl

  me_of_subject :
      (s : Bytes) (c : Context)
      → Succeeds
          (me (record { subject = s }))
          (view c)
          (view (final (me_handler g (g.set auth_subject_key (text s) c))))
  unfolding me_handler auth_subject
  me_of_subject s c =
      write_success-Succeeds
        (me (record { subject = auth_subject g (g.set auth_subject_key (text s) c) }))
        (g.set auth_subject_key (text s) c)
      ∙ rw g.view-set refl

module _ (j : Jwt) (g : Gin Body) where
  open g use {Context, view}

  -- A request whose token ParseToken refuses is answered by UNAUTHORIZED alone, and what comes after
  -- BearerAuth does not run; so is every request when no manager is configured.
  pub bearer_auth_refuses :
      (manager : Option JwtManager) (next : Handler Context) (c : Context)
      → ((m : JwtManager)
          → manager ≡ some m
          → (e : AuthError) × (parse_token j m
                (view c).now
                ((view c).request.headers "Authorization")
              ≡ err e))
      → (c' : Context) × (bearer_auth j g manager next c ≡ returned c')
        × Answers Errcode.unauthorized (view c) (view c')
        × ((view c').aborted ≡ true)
  unfolding bearer_auth
  bearer_auth_refuses none next c h = (
    abort_error g Errcode.unauthorized c,
    refl,
    (abort_error-Answers g Errcode.unauthorized c).0,
    (abort_error-Answers g Errcode.unauthorized c).1,
  )
  bearer_auth_refuses (some m) next c h =
      let (e, p) = h m refl in
      (
        abort_error g Errcode.unauthorized c,
        ap (λ r. authorised j g r next c) p,
        (abort_error-Answers g Errcode.unauthorized c).0,
        (abort_error-Answers g Errcode.unauthorized c).1,
      )

  -- A token that POST /auth/token issues, sent as the bearer of a later request before it expires, is
  -- good for /auth/me: the first request is answered by the token alone, the second by the subject of
  -- the first without its white space.
  pub me_handler-create_token :
      (h : AuthHandler) (m : JwtManager) (subject signed : Bytes) (c later : Context)
      → h.manager ≡ some m
      → h.dev_token_available ≡ true
      → generate_token j m (view c).now subject ≡ ok signed
      → j.Encodable (new_claims j m (view c).now subject)
      → IsHeader signed ((view later).request.headers "Authorization")
      → (view c).now ≤ (view later).now
      → (view later).now < j.new_numeric_date ((view c).now + pos_part m.ttl)
      → Succeeds
          (token (record { access_token = signed; token_type = "Bearer" }))
          (view c)
          (view (final (create_token j g h (ok subject) c)))
        × Succeeds
            (me (record { subject = trim subject }))
            (view later)
            (view (final (bearer_auth j g h.manager (me_handler g) later)))
  unfolding create_token bearer_auth issued
  me_handler-create_token h m subject signed c later managed available made encodable sent since
        until =
      let accepted =
        parse_token-generate_token j m (view c).now (view later).now subject signed
          ((view later).request.headers "Authorization") made encodable sent since until in
      simp managed (
        simp available (
            rw made (
              write_success-Succeeds g
                (token (record { access_token = signed; token_type = "Bearer" })) c)),
        rw accepted (me_of_subject g (trim subject) later),
      )
