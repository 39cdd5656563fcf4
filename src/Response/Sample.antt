-- ===== src/Response/Sample.antt =====
-- A request of the API, and a context that has it.
use go_skeleton.Base.{ℕ, false, none, some, []}
use go_skeleton.Base.Text.{codes}
use go_skeleton.Wire.{Body}
use go_skeleton.Gin.{View, Request, text, update}

abbrev pub get : Request
get = record {
  method = "GET";
  path = codes "/auth/me";
  full_path = codes "/auth/me";
  client_ip = codes "10.0.0.1";
  headers = λ name. [];
  has_body = false;
  body_limit = none;
  context = record { trace_id = codes "t1"; deadline = some 90; cancelled = none };
}

abbrev pub context_at : ℕ → View Body
context_at now = record {
  request = get;
  keys = update "trace_id" (some (text (codes "t1"))) (λ key. none);
  headers = λ name. none;
  sent = [];
  aborted = false;
  now = now;
}
