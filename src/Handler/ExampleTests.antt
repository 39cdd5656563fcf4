-- ===== src/Handler/ExampleTests.antt =====
-- The handlers of the resource example over a service that refuses.
use go_skeleton.Base.{ℕ, ◌+◌, String, Result, ok, err}
use go_skeleton.Base.Text.{Bytes, codes}
use go_skeleton.Errcode
use go_skeleton.Wire.{Body}
use go_skeleton.Gin.{View}
use go_skeleton.Gin.Recording.{recording}
use go_skeleton.Response.Sample.{context_at}
use go_skeleton.Handler.Example.{
  ExampleMethods, ListExamplesReq, create_handler, list_handler, enqueue_handler,
}
use go_skeleton.Handler.Example.Answer.{IsAnswer, went_well, example_handlers-IsAnswer}

abbrev service : ExampleMethods ℕ
service = record {
  create_by_name =
      λ name n. (ok (record { id = n; name = name; created_at = 0; updated_at = 0 }), n + 1);
  list_examples = λ req n. (err Errcode.database_error, n);
  enqueue = λ name n. (err Errcode.queue_unavailable, n);
}

abbrev name : Result String Bytes
name = ok (codes "a")

abbrev page : Result String ListExamplesReq
page = ok (record { limit = 0; offset = 0 })

abbrev after_create : View Body
after_create = (create_handler (recording Body) service name 3 (context_at 7)).1

example_handlers-IsAnswer_example :
    IsAnswer (went_well (λ n. (service.create_by_name n 3).0) name) (context_at 7) after_create
    × IsAnswer
        (went_well (λ req. (service.list_examples req 3).0) page)
        (context_at 7)
        (list_handler (recording Body) service page 3 (context_at 7)).1
    × IsAnswer
        (went_well (λ n. (service.enqueue n 3).0) name)
        (context_at 7)
        (enqueue_handler (recording Body) service name 3 (context_at 7)).1
example_handlers-IsAnswer_example =
    example_handlers-IsAnswer (recording Body) service name page 3 (context_at 7)
