-- ===== src/Middleware/Timeout/Answer.antt =====
-- What a request gets whose handler ran past its deadline.
use go_skeleton.Base.{
  ℕ, ◌<◌, ◌≡◌, ◌≢◌, refl, ap, ◌∙◌, Bool, true, false, Option, List, [], ◌∷◌, if◌then◌else◌, arith,
}
use go_skeleton.Base.Int.{pos, leb_ℤ}
use go_skeleton.Errcode
use go_skeleton.Wire.{Body}
use go_skeleton.Gin.{Gin, Handler, returned, ◌>>=◌, RequestContext}
use go_skeleton.Response.{abort_error, deadline_exceeded}
use go_skeleton.Response.Envelope.{Answers, abort_error-Answers}
use go_skeleton.Middleware.Timeout.{timeout, after_timeout, with_timeout, written}

module _ (g : Gin Body) where
  open g use {Context, view}

  -- The context that the handlers below get.
  abbrev pub with_deadline : ℕ → Context → Context
  with_deadline limit c =
      let request = (view c).request in
      g.set_request (record request { context = with_timeout request.context (view c).now limit }) c

  module _ (ctx : RequestContext) (c : Context) where
    after_timeout_late :
        (view c).sent ≡ []
        → deadline_exceeded ctx (view c).now ≡ true
        → after_timeout g ctx c ≡ returned (abort_error g Errcode.request_timeout c)
    unfolding after_timeout
    after_timeout_late silent late = rw (silent, late) refl

    after_timeout_in_time :
        deadline_exceeded ctx (view c).now ≡ false → after_timeout g ctx c ≡ returned c
    unfolding after_timeout
    after_timeout_in_time early = rw early (same (written (view c)))
      where
        same : (b : Bool) → (if b then returned c else returned c) ≡ returned c
        same true = refl
        same false = refl

    after_timeout_written : (view c).sent ≢ [] → after_timeout g ctx c ≡ returned c
    unfolding after_timeout
    after_timeout_written n = rw (some_sent (view c).sent refl n) refl
      where
        some_sent :
            (xs : List (ℕ × Option Body)) → (view c).sent ≡ xs → xs ≢ [] → written (view c) ≡ true
        some_sent [] e n = absurd (n refl)
        some_sent (x ∷ xs) e n = rw e refl

  -- With a positive limit, a handler that returns after its deadline without having written anything is
  -- answered for by REQUEST_TIMEOUT alone; what a handler has written stays as it is, however late, and
  -- nothing is written for one that returns in time.
  pub timeout_lem :
      (limit : ℕ) (next : Handler Context) (c c' : Context)
      → 0 < limit
      → next (with_deadline limit c) ≡ returned c'
      → let late =
          deadline_exceeded
            (with_timeout (view c).request.context (view c).now limit)
            (view c').now in
        ((view c').sent ≡ []
          → late ≡ true
          → (c'' : Context) × (timeout g (pos limit) next c ≡ returned c'')
            × Answers Errcode.request_timeout (view c') (view c''))
        × ((view c').sent ≢ [] → timeout g (pos limit) next c ≡ returned c')
        × (late ≡ false → timeout g (pos limit) next c ≡ returned c')
  unfolding timeout
  timeout_lem limit next c c' h e =
      let ctx = with_timeout (view c).request.context (view c).now limit in
      (
        λ silent late. (
          abort_error g Errcode.request_timeout c',
          step ∙ after_timeout_late ctx c' silent late,
          (abort_error-Answers g Errcode.request_timeout c').0,
        ),
        λ some_sent. step ∙ after_timeout_written ctx c' some_sent,
        λ early. step ∙ after_timeout_in_time ctx c' early,
      )
    where
      step :
          timeout g (pos limit) next c
          ≡ after_timeout g (with_timeout (view c).request.context (view c).now limit) c'
      step =
          let positive : leb_ℤ (pos limit) (pos 0) ≡ false = ground arith in
          simp positive (
            ap
              (λ o.
                o >>= after_timeout g (with_timeout (view c).request.context (view c).now limit))
              e)
