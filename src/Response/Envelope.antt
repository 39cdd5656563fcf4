-- ===== src/Response/Envelope.antt =====
-- What each writer of pkg/response puts on the wire, in the metrics and in the context.
use go_skeleton.Base.{
  String, true, false, ◌⊎◌, none, some, [], ◌∷◌, ◌++◌, ◌≡◌, refl, ◌≤◌, ◌<◌, arith, str_eq,
}
use go_skeleton.Errcode
use go_skeleton.Errcode.{Error, code_of, reason_of, http_status}
use go_skeleton.Wire.{Body, envelope}
use go_skeleton.Gin.{Gin, View, number}
use go_skeleton.Response.{
  Failure, as_coded, message_for, metrics_code_key, build_metadata, error_response, answered,
  or_internal, write_coded, request_timed_out, write_error, abort_error,
}

-- `after` is `before` with one more response written: the envelope of `e`, with its status and its
-- code, the same code for the metrics, and the trace id of the request.
pub record Answers (e : Error) (before after : View Body) : Type 0 where
  pub sent :
      after.sent
      ≡ before.sent
        ++ (
          http_status e,
          some (
              envelope (record {
                code = code_of e;
                message = message_for (reason_of e);
                reason = reason_of e;
                payload = none;
                metadata = build_metadata before;
              })),
        )
          ∷ []
  pub metered : after.keys metrics_code_key ≡ some (number (code_of e))
  pub kept : (key : String) → str_eq key metrics_code_key ≡ false → after.keys key ≡ before.keys key
  pub headers : after.headers ≡ before.headers
  pub request : after.request ≡ before.request

module _ (g : Gin Body) where
  open g use {Context, view}

  write_coded-Answers : (e : Error) (c : Context) → Answers e (view c) (view (write_coded g e c))
  unfolding write_coded error_response build_metadata
  write_coded-Answers e c =
      simp (g.view-json, g.view-set)
        (record {
          sent = refl;
          metered = refl;
          kept = λ key h. rw h;
          headers = refl;
          request = refl;
        })

  -- WriteError answers by the error's own code where that is a client error or the deadline of the
  -- request has not come; an error that carries no code counts as INTERNAL_ERROR.
  pub write_error-Answers :
      (err : Failure) (c : Context)
      → (http_status (or_internal (as_coded err)) < 500) ⊎ (request_timed_out (view c) ≡ false)
      → Answers (or_internal (as_coded err)) (view c) (view (write_error g err c))
  unfolding write_error answered
  write_error-Answers err c h =
      let own : answered (view c) err ≡ or_internal (as_coded err) =
        unfold answered in ground arith in
      rw own (write_coded-Answers (or_internal (as_coded err)) c)

  -- WriteError answers by the error that it takes for the request.
  pub write_error_lem :
      (err : Failure) (c : Context)
      → Answers (answered (view c) err) (view c) (view (write_error g err c))
  unfolding write_error
  write_error_lem err c = write_coded-Answers (answered (view c) err) c

  -- A server error of a request whose deadline has come is answered as REQUEST_TIMEOUT.
  pub write_error_timed_out :
      (err : Failure) (c : Context)
      → 500 ≤ http_status (or_internal (as_coded err))
      → request_timed_out (view c) ≡ true
      → Answers Errcode.request_timeout (view c) (view (write_error g err c))
  unfolding write_error
  write_error_timed_out err c h late =
      let replaced : answered (view c) err ≡ Errcode.request_timeout =
        unfold answered in ground arith in
      rw replaced (write_coded-Answers Errcode.request_timeout c)

  -- AbortError answers by the error's code, whatever the deadline, and stops the chain.
  pub abort_error-Answers :
      (e : Error) (c : Context)
      → Answers e (view c) (view (abort_error g e c)) × ((view (abort_error g e c)).aborted ≡ true)
  unfolding abort_error error_response build_metadata
  abort_error-Answers e c =
      simp (g.view-abort_with_status_json, g.view-set)
        (
          record {
            sent = refl;
            metered = refl;
            kept = λ key h. rw h;
            headers = refl;
            request = refl;
          },
          refl,
        )
