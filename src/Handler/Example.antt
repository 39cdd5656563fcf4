-- ===== src/Handler/Example.antt =====
-- internal/handler/example.go. The three handlers read a request, call one method of the service and
-- answer. What gin binds of the request is an argument, and so is the service, on a state of its own.
pub mod Answer
use go_skeleton.Base.{ℕ, String, Result, ok, err}
use go_skeleton.Errcode.{Error}
use go_skeleton.Model.{Example}
use go_skeleton.Base.Text.{Bytes}
use go_skeleton.Wire.{
  Body, Payload, ListExamplesRes, EnqueueExampleTaskRes, example, examples, enqueued,
}
use go_skeleton.Gin.{Gin}
use go_skeleton.Response.{coded, write_success, write_error, write_validation_error}

-- service.ListExamplesReq; its binding lets no negative number through.
pub record ListExamplesReq : Type 0 where
  pub limit : ℕ
  pub offset : ℕ

-- The service's methods.
pub record ExampleMethods (S : Type 0) : Type 0 where
  pub create_by_name : Bytes → S → Result Error Example × S
  pub list_examples : ListExamplesReq → S → Result Error ListExamplesRes × S
  pub enqueue : Bytes → S → Result Error EnqueueExampleTaskRes × S

module _ (g : Gin Body) {S : Type 0} where
  open g use {Context}

  abbrev pub replied : {A : Type 0} → (A → Payload) → Result Error A × S → Context → S × Context
  replied payload (ok a, s) c = (s, write_success g (payload a) c)
  replied payload (err e, s) c = (s, write_error g (coded e) c)

  unfoldable pub create_handler : ExampleMethods S → Result String Bytes → S → Context → S × Context
  create_handler service (err message) s c = (s, write_validation_error g message c)
  create_handler service (ok name) s c = replied example (service.create_by_name name s) c

  unfoldable pub list_handler :
      ExampleMethods S → Result String ListExamplesReq → S → Context → S × Context
  list_handler service (err message) s c = (s, write_validation_error g message c)
  list_handler service (ok req) s c = replied examples (service.list_examples req s) c

  unfoldable pub enqueue_handler :
      ExampleMethods S → Result String Bytes → S → Context → S × Context
  enqueue_handler service (err message) s c = (s, write_validation_error g message c)
  enqueue_handler service (ok name) s c = replied enqueued (service.enqueue name s) c
