-- ===== src/Middleware/Cors/Preflight.antt =====
-- What CORS answers to a preflight request, and which origins it lets through.
use go_skeleton.Base.{
  ℕ, ◌≡◌, refl, sym, ap, ◌∙◌, subst, Bool, true, false, not, ◌&&◌, Bool-cases, inl, inr, ◌⊎◌, none,
  some, List, [], ◌∷◌, ◌++◌, if◌then◌else◌, str_eq, arith,
}
use mathlib.Core.List.{Memᴰ}
use go_skeleton.Base.Text.{Bytes, codes, is_empty, beq, beq_iff}
use go_skeleton.Gin.{Gin, View, Handler, returned}
use go_skeleton.Middleware.Cors.{
  cors, with_cors, allow_headers, origin_of, origin_allowed, contains_origin, allowed_origins,
}

contains_origin-Memᴰ :
    (allowed : List Bytes) (origin : Bytes)
    → contains_origin allowed origin ≡ true
    → Memᴰ origin allowed
unfolding contains_origin
contains_origin-Memᴰ [] origin h = cc
contains_origin-Memᴰ (o ∷ allowed) origin h = elim (Bool-cases (beq o origin)) [
  | inl same ↦ Memᴰ.head (sym ((beq_iff o origin).0 same))
  | inr other ↦ Memᴰ.tail (contains_origin-Memᴰ allowed origin (ground arith))
]

module _ {B : Type 0} (g : Gin B) where
  open g use {Context, view}

  allow_headers-view :
      (origin : Bytes) (credentials : Bool) (c : Context)
      → ((view (allow_headers g origin credentials c)).request ≡ (view c).request)
        × ((view (allow_headers g origin credentials c)).sent ≡ (view c).sent)
        × ((view (allow_headers g origin credentials c)).headers "Access-Control-Allow-Origin"
            ≡ (if is_empty origin then none else some origin))
  unfolding allow_headers
  allow_headers-view origin true c = simp g.view-header (refl, refl, refl)
  allow_headers-view origin false c = simp g.view-header (refl, refl, refl)

  allowed_named :
      (origins : List Bytes) (c : Context)
      → origin_allowed g origins c ≡ true
      → (is_empty (origin_of g c) ≡ false)
        × (contains_origin (allowed_origins origins) (origin_of g c) ≡ true)
  unfolding origin_allowed
  allowed_named origins c h = ground arith

  -- The headers and the request after CORS has set its headers.
  with_cors-view :
      (origins : List Bytes) (credentials : Bool) (c : Context)
      → (view c).headers "Access-Control-Allow-Origin" ≡ none
      → ((view (with_cors g origins credentials c)).request ≡ (view c).request)
        × ((view (with_cors g origins credentials c)).sent ≡ (view c).sent)
        × ((view (with_cors g origins credentials c)).headers "Access-Control-Allow-Origin"
            ≡ (if origin_allowed g origins c then some (origin_of g c) else none))
  unfolding with_cors
  with_cors-view origins credentials c h = elim (Bool-cases (origin_allowed g origins c)) [
    | inl listed ↦
        let (r, s, o) =
          allow_headers-view (origin_of g c) credentials (g.header "Vary" (codes "Origin") c) in
        rw listed (
          r ∙ ap (λ (v : View B). v.request) (g.view-header _ _ c),
          s ∙ ap (λ (v : View B). v.sent) (g.view-header _ _ c),
          o ∙ simp (allowed_named origins c listed).0 refl,
        )
    | inr unlisted ↦ rw unlisted (rw g.view-header (refl, refl, h))
  ]

  -- A preflight request never reaches the route's handler. It is answered by one response without a
  -- body: 403 if it names an origin that is not on the list, else 204. The response allows an origin
  -- only if the request named it and the trimmed list has it.
  pub cors_preflight :
      (origins : List Bytes) (credentials : Bool) (c : Context)
      → (view c).request.method ≡ "OPTIONS"
      → (view c).headers "Access-Control-Allow-Origin" ≡ none
      → (c' : Context) × (status : ℕ) × ((next : Handler Context)
          → cors g origins credentials next c ≡ returned c')
        × ((view c').sent ≡ (view c).sent ++ (status, none) ∷ [])
        × ((view c').aborted ≡ true)
        × ((status ≡ 204)
            ⊎ ((status ≡ 403) × ((view c').headers "Access-Control-Allow-Origin" ≡ none)))
        × ((origin : Bytes)
            → (view c').headers "Access-Control-Allow-Origin" ≡ some origin
            → (origin ≡ origin_of g c) × Memᴰ origin (allowed_origins origins))
  unfolding cors
  cors_preflight origins credentials c method fresh =
      let set = with_cors g origins credentials c in
      let (r, s, o) = with_cors-view origins credentials c fresh in
      let asked : str_eq (view set).request.method "OPTIONS" ≡ true = simp (r, method) refl in
      let refused = not (is_empty (origin_of g c)) && not (origin_allowed g origins c) in
      elim (Bool-cases refused) [
        | inl listed ↦
            let unlisted : origin_allowed g origins c ≡ false = ground arith in
            (
              g.abort_with_status 403 set,
              403,
              λ next. rw (asked, listed) refl,
              (ended 403).0,
              (ended 403).1,
              inr (refl, (ended 403).2 ∙ o ∙ simp unlisted refl),
              λ origin e. allowed origin (sym ((ended 403).2 ∙ o) ∙ e),
            )
        | inr unrefused ↦ (
          g.abort_with_status 204 set,
          204,
          λ next. rw (asked, unrefused) refl,
          (ended 204).0,
          (ended 204).1,
          inl refl,
          λ origin e. allowed origin (sym ((ended 204).2 ∙ o) ∙ e),
        )
      ]
    where
      ended :
          (status : ℕ)
          → let set = with_cors g origins credentials c in
            let after = view (g.abort_with_status status set) in
            (after.sent ≡ (view c).sent ++ (status, none) ∷ [])
            × (after.aborted ≡ true)
            × (after.headers "Access-Control-Allow-Origin"
                ≡ (view set).headers "Access-Control-Allow-Origin")
      ended status = rw g.view-abort_with_status (
        ap (λ sent. sent ++ (status, none) ∷ []) (with_cors-view origins credentials c fresh).1,
        refl,
        refl,
      )

      allowed :
          (origin : Bytes)
          → (if origin_allowed g origins c then some (origin_of g c) else none) ≡ some origin
          → (origin ≡ origin_of g c) × Memᴰ origin (allowed_origins origins)
      allowed origin e = elim (Bool-cases (origin_allowed g origins c)) [
        | inl listed ↦
            let own : origin_of g c ≡ origin = ground arith in
            (
              sym own,
              subst (λ x. Memᴰ x (allowed_origins origins)) own
                  (contains_origin-Memᴰ (allowed_origins origins) (origin_of g c)
                    (allowed_named origins c listed).1),
            )
        | inr unlisted ↦ ground arith
      ]
