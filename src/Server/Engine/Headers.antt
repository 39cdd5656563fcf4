-- ===== src/Server/Engine/Headers.antt =====
-- Response headers that the chain sets and that no middleware below takes away.
use go_skeleton.Base.{ℕ, String, ◌≡◌, Bool, true, false, some, List, if◌then◌else◌, str_eq}
use go_skeleton.Base.Int.{ℤ, pos, pos_part, leb_ℤ}
use go_skeleton.Base.Text.{Bytes, codes}
use go_skeleton.Errcode.{Error}
use go_skeleton.Wire.{Body}
use go_skeleton.Gin.{
  Gin, Handler, Outcome, returned, panicked, final, ◌>>=◌, Request, RequestContext,
}
use go_skeleton.Response.{abort_error}
use go_skeleton.Middleware.Headers.{max_body_bytes}
use go_skeleton.Middleware.Timeout.{timeout, after_timeout, with_timeout}
use go_skeleton.Middleware.Recovery.{recovered}
use go_skeleton.Middleware.Cors.{cors, with_cors, origin_of, origin_allowed}

module _ (g : Gin Body) (name : String) (value : Bytes) where
  open g use {Context, view}

  abbrev pub HasHeader : Context → Type 0
  HasHeader c = (view c).headers name ≡ some value

  -- However the handler ends, the header is still there.
  abbrev pub Keeps : Handler Context → Type 0
  Keeps h = (c : Context) → HasHeader c → HasHeader (final (h c))

  pub abort_error-HasHeader :
      (e : Error) (c : Context) → HasHeader c → HasHeader (abort_error g e c)
  unfolding abort_error
  abort_error-HasHeader e c h = simp (g.view-abort_with_status_json, g.view-set) h

  set_request-HasHeader : (r : Request) (c : Context) → HasHeader c → HasHeader (g.set_request r c)
  set_request-HasHeader r c h = simp g.view-set_request h

  pub header-HasHeader :
      (other : String) (v : Bytes) (c : Context)
      → str_eq name other ≡ false
      → HasHeader c
      → HasHeader (g.header other v c)
  header-HasHeader other v c ne h = simp (g.view-header, ne) h

  if-HasHeader :
      (b : Bool) (c c' : Context) → HasHeader c → HasHeader c' → HasHeader (if b then c else c')
  if-HasHeader true c c' h k = h
  if-HasHeader false c c' h k = k

  pub record Ends (o : Outcome Context) : Type 0 where
    pub at : HasHeader (final o)

  pub if-Ends : (b : Bool) {o o' : Outcome Context} → Ends o → Ends o' → Ends (if b then o else o')
  if-Ends true h k = h
  if-Ends false h k = k

  bind-Ends :
      (o : Outcome Context) {f : Context → Outcome Context}
      → Ends o
      → ((c : Context) → HasHeader c → Ends (f c))
      → Ends (o >>= f)
  bind-Ends (returned c) h k = k c h.at
  bind-Ends (panicked c) h k = record { at = h.at }

  abort_with_status-HasHeader :
      (status : ℕ) (c : Context) → HasHeader c → HasHeader (g.abort_with_status status c)
  abort_with_status-HasHeader status c h = simp g.view-abort_with_status h

  returned-Ends : (c : Context) → HasHeader c → Ends (returned c)
  returned-Ends c h = record { at = h }

  next-Ends : (next : Handler Context) → Keeps next → (c : Context) → HasHeader c → Ends (next c)
  next-Ends next k c h = record { at = k c h }

  pub recovered-HasHeader :
      (o : Outcome Context) → HasHeader (final o) → HasHeader (final (recovered g o))
  recovered-HasHeader (returned c') h = h
  recovered-HasHeader (panicked c') h = abort_error-HasHeader _ c' h

  pub max_body_bytes-Keeps :
      (limit : ℤ) (next : Handler Context) → Keeps next → Keeps (max_body_bytes g limit next)
  unfolding max_body_bytes
  max_body_bytes-Keeps limit next k c h = k _ (if-HasHeader _ _ c (set_request-HasHeader _ c h) h)

  after_timeout-Ends :
      (ctx : RequestContext) (c : Context) → HasHeader c → Ends (after_timeout g ctx c)
  unfolding after_timeout
  after_timeout-Ends ctx c h =
      if-Ends _ (returned-Ends c h)
        (if-Ends _ (returned-Ends _ (abort_error-HasHeader _ c h)) (returned-Ends c h))

  pub timeout-Keeps :
      (limit : ℤ) (next : Handler Context) → Keeps next → Keeps (timeout g limit next)
  unfolding timeout
  timeout-Keeps limit next k c h =
      let v = view c in
      let ctx = with_timeout v.request.context v.now (pos_part limit) in
      let request = record v.request { context = ctx } in
      let below = next-Ends next k (g.set_request request c) (set_request-HasHeader request c h) in
      let ended : Ends (timeout g limit next c) =
        if-Ends (leb_ℤ limit (pos 0)) (next-Ends next k c h)
          (bind-Ends _ below (after_timeout-Ends ctx)) in
      ended.at

  pub record IsForeign : Type 0 where
    pub vary : str_eq name "Vary" ≡ false
    pub origin : str_eq name "Access-Control-Allow-Origin" ≡ false
    pub methods : str_eq name "Access-Control-Allow-Methods" ≡ false
    pub headers : str_eq name "Access-Control-Allow-Headers" ≡ false
    pub credentials : str_eq name "Access-Control-Allow-Credentials" ≡ false

  with_cors-HasHeader :
      (origins : List Bytes) (credentials : Bool) (c : Context)
      → IsForeign
      → HasHeader c
      → HasHeader (with_cors g origins credentials c)
  unfolding with_cors
  with_cors-HasHeader origins credentials c f h =
      let varied = header-HasHeader "Vary" (codes "Origin") c f.vary h in
      let allowed =
        header-HasHeader _ (codes "Origin,Content-Type,Accept,Authorization,X-Request-ID") _
          f.headers
          (header-HasHeader _ (codes "GET,POST,PUT,PATCH,DELETE,OPTIONS") _ f.methods
            (header-HasHeader _ (origin_of g c) _ f.origin varied)) in
      if-HasHeader (origin_allowed g origins c) _ _
        (if-HasHeader credentials _ _ (header-HasHeader _ (codes "true") _ f.credentials allowed)
          allowed)
        varied

  pub cors-Keeps :
      (origins : List Bytes) (credentials : Bool) (next : Handler Context)
      → IsForeign
      → Keeps next
      → Keeps (cors g origins credentials next)
  unfolding cors
  cors-Keeps origins credentials next f k c h =
      let set = with_cors-HasHeader origins credentials c f h in
      let ended : Ends (cors g origins credentials next c) =
        search (if-Ends, returned-Ends, abort_with_status-HasHeader, next-Ends next k, set) in
      ended.at
