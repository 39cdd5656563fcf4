-- ===== src/Bootstrap/Production.antt =====
-- What a process in production is guaranteed by its configuration: from the environment through Load,
-- Validate and initAuth to the answer of POST /auth/token.
use go_skeleton.Base.{
  ◌≤◌, ◌<◌, String, ◌≡◌, ◌≢◌, ◌⊎◌, inl, inr, refl, sym, ap, ◌∙◌, false, Option, none, some, [], ◌∷◌,
  Result, ok, arith, length,
}
use go_skeleton.Base.Int.{ℤ, pos, ◌<ℤ◌}
use go_skeleton.Base.Text.{Bytes, is_empty, trim}
use go_skeleton.Config.{Config, production}
use go_skeleton.Config.Env.{Variables}
use go_skeleton.Config.Load.{load, load_iff}
use go_skeleton.Config.Validate.{min_jwt_secret_bytes}
use go_skeleton.Config.Validate.Sound.{IsSound}
use go_skeleton.Errcode
use go_skeleton.Model.{Time}
use go_skeleton.Wire.{Body}
use go_skeleton.Gin.{Gin, final}
use go_skeleton.Response.{coded, write_error}
use go_skeleton.Auth.{Jwt, JwtManager, Claims, new_jwt_manager, parse_token}
use go_skeleton.Auth.Tokens.{parse_token_sound}
use go_skeleton.Handler.Auth.{AuthHandler, create_token}
use go_skeleton.Bootstrap.{init_auth, managed}

-- NewAuthHandler, as newHTTPHandlers calls it.
unfoldable pub new_auth_handler : Config → Option JwtManager → AuthHandler
new_auth_handler cfg manager = record {
  manager = manager;
  dev_token_available = cfg.auth.dev_token_endpoint_enabled;
}

-- A manager made from the configuration.
record IsFrom (cfg : Config) (m : JwtManager) : Type 0 where
  secret_of : m.secret ≡ cfg.auth.jwt_secret
  issuer_of : m.issuer ≡ trim cfg.auth.jwt_issuer
  ttl_of : m.ttl ≡ cfg.auth.jwt_ttl

init_auth_made :
    (cfg : Config)
    → is_empty (trim cfg.auth.jwt_secret) ≡ false
    → (m : JwtManager) × (init_auth cfg ≡ ok (some m)) × IsFrom cfg m
unfolding init_auth new_jwt_manager
init_auth_made cfg set = (
  record {
    secret = cfg.auth.jwt_secret;
    issuer = trim cfg.auth.jwt_issuer;
    ttl = cfg.auth.jwt_ttl;
  },
  rw set refl,
  record { secret_of = refl; issuer_of = refl; ttl_of = refl },
)

nonempty : (s : Bytes) → min_jwt_secret_bytes ≤ length s → is_empty s ≡ false
nonempty [] h = absurd (omega (arith, h))
nonempty (c ∷ s) h = refl

own_issuer : (m i : Bytes) → is_empty m ≡ false → (m ≡ []) ⊎ (i ≡ m) → i ≡ m
own_issuer [] i set h = cc
own_issuer (c ∷ m) i set (inl e) = cc
own_issuer (c ∷ m) i set (inr e) = e

refused :
    (j : Jwt) (g : Gin Body) (cfg : Config) (m : JwtManager) (request : Result String Bytes)
    (c : g.Context)
    → cfg.auth.dev_token_endpoint_enabled ≡ false
    → final (create_token j g (new_auth_handler cfg (some m)) request c)
      ≡ write_error g (coded Errcode.service_disabled) c
unfolding create_token new_auth_handler
refused j g cfg m request c off = rw off refl

module _ (parse_duration : Bytes → Option ℤ) (env : Variables)
    (loaded : (load parse_duration env).1 ≡ none)
    (in_production : (load parse_duration env).0.env ≡ production) where
  abbrev cfg : Config
  cfg = (load parse_duration env).0

  sound : IsSound cfg
  sound = ((load_iff parse_duration env).0 loaded).1

  made : (m : JwtManager) × (init_auth cfg ≡ ok (some m)) × IsFrom cfg m
  made =
      let safe = sound.guarded in_production in
      init_auth_made cfg (nonempty (trim cfg.auth.jwt_secret) safe.long_secret)

  -- A process that Load lets start in production has a manager of tokens, with a secret of at least 32
  -- bytes and a positive lifetime, and its POST /auth/token issues no token: to each request it answers
  -- the error of a disabled service.
  pub production_issues_nothing :
      (j : Jwt) (g : Gin Body) (request : Result String Bytes) (c : g.Context)
      → (m : JwtManager) × (init_auth cfg ≡ ok (some m))
        × (32 ≤ length (trim m.secret))
        × (pos 0 <ℤ m.ttl)
        × (final (create_token j g (new_auth_handler cfg (some m)) request c)
            ≡ write_error g (coded Errcode.service_disabled) c)
  production_issues_nothing j g request c =
      let (m, made_of, of_cfg) = made in
      let safe = sound.guarded in_production in
      let set = nonempty (trim cfg.auth.jwt_secret) safe.long_secret in
      (
        m,
        made_of,
        rw of_cfg.secret_of safe.long_secret,
        rw of_cfg.ttl_of (sound.tokens set).lifetime,
        refused j g cfg m request c safe.no_dev_token,
      )

  -- Each token that such a process accepts was issued under the issuer of its configuration, expires,
  -- and has not expired.
  pub production_accepts_own :
      (j : Jwt) (m : JwtManager) (now : Time) (header : Bytes) (c : Claims)
      → init_auth cfg ≡ ok (some m)
      → parse_token j m now header ≡ ok c
      → (c.issuer ≡ trim cfg.auth.jwt_issuer) × ((e : Time) × (c.expires_at ≡ some e) × (now < e))
  production_accepts_own j m now header c manages accepted =
      let (n, made_of, of_cfg) = made in
      let same : n ≡ m = of_some (sym made_of ∙ manages) in
      let safe = sound.guarded in_production in
      let set = nonempty (trim cfg.auth.jwt_secret) safe.long_secret in
      let issuer : m.issuer ≡ trim cfg.auth.jwt_issuer =
        ap (λ (x : JwtManager). x.issuer) (sym same) ∙ of_cfg.issuer_of in
      let (expires, unexpired, _, _, own) = parse_token_sound j m now header c accepted in
      (
        own_issuer m.issuer c.issuer (ap is_empty issuer ∙ (sound.tokens set).issuer) own ∙ issuer,
        expiry c.expires_at expires unexpired,
      )
    where
      expiry :
          (o : Option Time)
          → o ≢ none
          → ((e : Time) → o ≡ some e → now < e)
          → (e : Time) × (o ≡ some e) × (now < e)
      expiry none n f = absurd (n refl)
      expiry (some e) n f = (e, refl, f e refl)

      of_some : {n m : JwtManager} → managed (ok n) ≡ managed (ok m) → n ≡ m
      of_some e = cc
