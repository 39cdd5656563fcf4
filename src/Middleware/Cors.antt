-- ===== src/Middleware/Cors.antt =====
-- internal/middleware/cors.go: a whitelist of origins.
pub mod Preflight
use go_skeleton.Base.{ℕ, Bool, true, false, ◌&&◌, ◌||◌, not, List, [], ◌∷◌, if◌then◌else◌, str_eq}
use go_skeleton.Base.Text.{Bytes, codes, trim, is_empty, beq}
use go_skeleton.Gin.{Gin, View, returned, Middleware}

-- The keys of the map `allowed`: the origins trimmed, less the empty ones.
unfoldable pub allowed_origins : List Bytes → List Bytes
allowed_origins [] = []
allowed_origins (origin ∷ origins) =
    let rest = allowed_origins origins in
    if is_empty (trim origin) then rest else trim origin ∷ rest

unfoldable pub contains_origin : List Bytes → Bytes → Bool
contains_origin [] origin = false
contains_origin (o ∷ allowed) origin = beq o origin || contains_origin allowed origin

module _ {B : Type 0} (g : Gin B) where
  open g use {Context, view, header, abort_with_status}

  unfoldable pub allow_headers : Bytes → Bool → Context → Context
  allow_headers origin credentials c =
      let c' =
        header "Access-Control-Allow-Headers"
          (codes "Origin,Content-Type,Accept,Authorization,X-Request-ID")
          (header "Access-Control-Allow-Methods" (codes "GET,POST,PUT,PATCH,DELETE,OPTIONS")
            (header "Access-Control-Allow-Origin" origin c)) in
      if credentials then header "Access-Control-Allow-Credentials" (codes "true") c' else c'

  -- The origin of the request, and whether the whitelist has it.
  unfoldable pub origin_of : Context → Bytes
  origin_of c = trim ((view c).request.headers "Origin")

  unfoldable pub origin_allowed : List Bytes → Context → Bool
  unfolding origin_of
  origin_allowed allow_origins c =
      not (is_empty (origin_of c)) && contains_origin (allowed_origins allow_origins) (origin_of c)

  -- The context after the response's headers are set.
  unfoldable pub with_cors : List Bytes → Bool → Context → Context
  unfolding allow_headers origin_allowed
  with_cors allow_origins credentials c =
      let c' = header "Vary" (codes "Origin") c in
      if origin_allowed allow_origins c then allow_headers (origin_of c) credentials c' else c'

  unfoldable pub cors : List Bytes → Bool → Middleware Context
  unfolding with_cors
  cors allow_origins credentials next c =
      let c' = with_cors allow_origins credentials c in
      if str_eq (view c').request.method "OPTIONS"
      then if not (is_empty (origin_of c)) && not (origin_allowed allow_origins c)
        then returned (abort_with_status 403 c')
        else returned (abort_with_status 204 c')
      else next c'
