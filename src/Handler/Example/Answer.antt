-- ===== src/Handler/Example/Answer.antt =====
-- Each handler of the resource example answers once.
use go_skeleton.Base.{
  ℕ, String, ◌≡◌, ◌↔◌, refl, ap, ◌∙◌, Bool, true, false, some, [], ◌∷◌, ◌++◌, Result, ok, err,
  arith,
}
use go_skeleton.Base.Text.{Bytes}
use go_skeleton.Errcode.{Error, http_status, invalid_params, code_of}
use go_skeleton.Errcode.Status.{http_status-IsErrorStatus}
use go_skeleton.Wire.{Body, Payload, envelope, example, examples, enqueued}
use go_skeleton.Gin.{Gin, View, number}
use go_skeleton.Response.{
  coded, answered, metrics_code_key, write_error, write_validation_error, success_response,
  build_validation_error_response,
}
use go_skeleton.Response.Envelope.{write_error_lem}
use go_skeleton.Handler.Auth.Exchange.{write_success-Succeeds}
use go_skeleton.Handler.Example.{
  ExampleMethods, ListExamplesReq, create_handler, list_handler, enqueue_handler, replied,
}

-- One response more, with the status 200 exactly if all went well.
pub record IsAnswer (good : Bool) (before after : View Body) : Type 0 where
  pub status : ℕ
  pub body : Body
  pub once : after.sent ≡ before.sent ++ (status, some body) ∷ []
  pub success : (status ≡ 200) ↔ (good ≡ true)

abbrev pub is_ok : {A E : Type 0} → Result E A → Bool
is_ok (ok a) = true
is_ok (err e) = false

-- Whether the request could be bound and the method of the service succeeded.
abbrev pub went_well : {A B : Type 0} → (A → Result Error B) → Result String A → Bool
went_well method (err message) = false
went_well method (ok a) = is_ok (method a)

module _ (g : Gin Body) where
  open g use {Context, view}

  write_error-IsAnswer :
      (e : Error) (c : Context) → IsAnswer false (view c) (view (write_error g (coded e) c))
  write_error-IsAnswer e c =
      let answer = write_error_lem g (coded e) c in
      let refused = http_status-IsErrorStatus (answered (view c) (coded e)) in
      record {
        status = http_status (answered (view c) (coded e));
        body = _;
        once = answer.sent;
        success = (λ h. absurd (omega (arith, h, refused.at_least)), λ h. cc);
      }

  write_validation_error-IsAnswer :
      (message : String) (c : Context)
      → IsAnswer false (view c) (view (write_validation_error g message c))
  unfolding write_validation_error http_status
  write_validation_error-IsAnswer message c =
      let metered = g.set metrics_code_key (number (code_of invalid_params)) c in
      record {
        status = 400;
        body = envelope (build_validation_error_response (view metered) message);
        once =
            ap (λ (v : View Body). v.sent)
              (g.view-json 400 (envelope (build_validation_error_response (view metered) message))
                metered)
            ∙ rw g.view-set refl;
        success = (λ h. absurd (omega (arith, h)), λ h. cc);
      }

  module _ {S : Type 0} where
    replied-IsAnswer :
        {A : Type 0} (payload : A → Payload) (r : Result Error A) (s : S) (c : Context)
        → IsAnswer (is_ok r) (view c) (view (replied g payload (r, s) c).1)
    replied-IsAnswer payload (ok a) s c = record {
      status = 200;
      body = envelope (success_response (payload a));
      once = write_success-Succeeds g (payload a) c;
      success = (λ h. refl, λ h. refl);
    }
    replied-IsAnswer payload (err e) s c = write_error-IsAnswer e c

    create_handler-IsAnswer :
        (service : ExampleMethods S) (bound : Result String Bytes) (s : S) (c : Context)
        → IsAnswer
            (went_well (λ name. (service.create_by_name name s).0) bound)
            (view c)
            (view (create_handler g service bound s c).1)
    unfolding create_handler
    create_handler-IsAnswer service (err message) s c = write_validation_error-IsAnswer message c
    create_handler-IsAnswer service (ok name) s c =
        replied-IsAnswer example (service.create_by_name name s).0 (service.create_by_name name s).1
          c

    list_handler-IsAnswer :
        (service : ExampleMethods S) (bound : Result String ListExamplesReq) (s : S) (c : Context)
        → IsAnswer
            (went_well (λ req. (service.list_examples req s).0) bound)
            (view c)
            (view (list_handler g service bound s c).1)
    unfolding list_handler
    list_handler-IsAnswer service (err message) s c = write_validation_error-IsAnswer message c
    list_handler-IsAnswer service (ok req) s c =
        replied-IsAnswer examples (service.list_examples req s).0 (service.list_examples req s).1 c

    enqueue_handler-IsAnswer :
        (service : ExampleMethods S) (bound : Result String Bytes) (s : S) (c : Context)
        → IsAnswer
            (went_well (λ name. (service.enqueue name s).0) bound)
            (view c)
            (view (enqueue_handler g service bound s c).1)
    unfolding enqueue_handler
    enqueue_handler-IsAnswer service (err message) s c = write_validation_error-IsAnswer message c
    enqueue_handler-IsAnswer service (ok name) s c =
        replied-IsAnswer enqueued (service.enqueue name s).0 (service.enqueue name s).1 c

    -- Create, List and EnqueueTask each write exactly one response, with any service: with the status 200
    -- exactly if the request could be bound and the service succeeded.
    pub example_handlers-IsAnswer :
        (service : ExampleMethods S) (bound : Result String Bytes)
        (page : Result String ListExamplesReq) (s : S) (c : Context)
        → IsAnswer
            (went_well (λ name. (service.create_by_name name s).0) bound)
            (view c)
            (view (create_handler g service bound s c).1)
          × IsAnswer
              (went_well (λ req. (service.list_examples req s).0) page)
              (view c)
              (view (list_handler g service page s c).1)
          × IsAnswer
              (went_well (λ name. (service.enqueue name s).0) bound)
              (view c)
              (view (enqueue_handler g service bound s c).1)
    example_handlers-IsAnswer service bound page s c = (
      create_handler-IsAnswer service bound s c,
      list_handler-IsAnswer service page s c,
      enqueue_handler-IsAnswer service bound s c,
    )
