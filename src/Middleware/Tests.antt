-- ===== src/Middleware/Tests.antt =====
-- Requests that the middleware answer themselves, and one that it names.
use go_skeleton.Base.{◌≡◌, refl, true, some, List, [], ◌∷◌, arith, str_eq, if◌then◌else◌}
use go_skeleton.Base.Text.{Bytes, codes}
use go_skeleton.Wire.{Body}
use go_skeleton.Gin.{Gin, View, Request, text}
use go_skeleton.Gin.Recording.{recording}
use go_skeleton.Response.Sample.{get, context_at}
use go_skeleton.Middleware.TraceLogger.{traced, valid_request_id, id_byte}
use go_skeleton.Middleware.TraceLogger.Ids.{IsSafe, traced-IsSafe}

abbrev gin : Gin Body
gin = recording Body

abbrev options : Request
options = record get {
  method = "OPTIONS";
  headers = λ name. if str_eq name "Origin" then codes "https://a.example" else [];
}

abbrev preflight : View Body
preflight = record (context_at 7) { request = options }

abbrev origins : List Bytes
origins = codes " https://a.example" ∷ []

uuid-IsSafe : IsSafe (codes "0b-1")
unfolding id_byte
uuid-IsSafe = record {
  some_byte = omega arith;
  short = omega arith;
  plain = (refl, (refl, (refl, (refl, tt))));
}

traced-IsSafe_example :
    (id : Bytes) × IsSafe id
    × ((traced gin (codes "0b-1") preflight).headers "X-Request-ID" ≡ some id)
    × ((traced gin (codes "0b-1") preflight).keys "trace_id" ≡ some (text id))
    × ((traced gin (codes "0b-1") preflight).request.context.trace_id ≡ id)
    × (valid_request_id (preflight.request.headers "X-Request-ID") ≡ true
        → id ≡ preflight.request.headers "X-Request-ID")
traced-IsSafe_example = traced-IsSafe gin (codes "0b-1") preflight uuid-IsSafe
