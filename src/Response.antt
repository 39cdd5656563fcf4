-- ===== src/Response.antt =====
-- pkg/response/response.go: the envelope of every API answer, and the functions that write it.
-- The errors that services return are `Failure`s; errors.AsType walks down a wrapped one.
pub mod Envelope
pub mod Sample
mod Tests
use go_skeleton.Base.{
  ℕ, String, Bool, true, false, ◌&&◌, Option, none, some, str_eq, leb, ltb, not, if◌then◌else◌,
}
use go_skeleton.Base.Int.{ℤ, pos}
use go_skeleton.Base.Text.{Bytes, is_empty}
use go_skeleton.Errcode
use go_skeleton.Errcode.{Error, code_of, reason_of, http_status}
use go_skeleton.Model.{Time}
use go_skeleton.Wire.{Payload, Response, Body, envelope}
use go_skeleton.Gin.{Gin, View, Table, Value, text, number, RequestContext}

-- An error value: an errcode.Error, any other, or one that wraps another (`fmt.Errorf("…: %w")`).
pub data Failure : Type 0 where
  coded : Error → Failure
  other : String → Failure
  wrapped : String → Failure → Failure

-- errors.AsType[errcode.Error]
unfoldable pub as_coded : Failure → Option Error
as_coded (coded e) = some e
as_coded (other message) = none
as_coded (wrapped message cause) = as_coded cause

unfoldable pub message_for : String → String
message_for reason =
    if str_eq reason "INVALID_PARAMS"
    then "invalid request parameters"
    else if str_eq reason "UNAUTHORIZED"
    then "unauthorized"
    else if str_eq reason "PERMISSION_DENIED"
    then "permission denied"
    else if str_eq reason "TOO_MANY_REQUESTS"
    then "too many requests"
    else if str_eq reason "REQUEST_TIMEOUT"
    then "request timeout"
    else if str_eq reason "SERVICE_DISABLED"
    then "endpoint is disabled by configuration"
    else if str_eq reason "NOT_FOUND"
    then "resource not found"
    else if str_eq reason "CONFLICT"
    then "resource conflict"
    else if str_eq reason "INTERNAL_ERROR"
    then "internal server error"
    else if str_eq reason "DATABASE_ERROR"
    then "database error"
    else if str_eq reason "QUEUE_UNAVAILABLE"
    then "queue unavailable"
    else if str_eq reason "QUEUE_ERROR"
    then "queue error"
    else if str_eq reason "NOT_IMPLEMENTED_YET"
    then "not implemented yet"
    else "operation failed"

abbrev pub metrics_code_key : String
metrics_code_key = "response_code"

unfoldable pub success_response : Payload → Response
success_response payload = record {
  code = pos 0;
  message = "success";
  reason = "";
  payload = some payload;
  metadata = none;
}

-- c.GetString("trace_id"), left out of the metadata when empty.
abbrev trace_of : Option Value → Option Bytes
trace_of (some (text trace)) = if is_empty trace then none else some trace
trace_of (some (number n)) = none
trace_of none = none

unfoldable pub build_metadata : View Body → Option Bytes
build_metadata v = trace_of (v.keys "trace_id")

unfoldable pub error_response : View Body → Error → Response
error_response v e = record {
  code = code_of e;
  reason = reason_of e;
  message = message_for (reason_of e);
  payload = none;
  metadata = build_metadata v;
}

-- `message` is the text of the error that binding the request gave.
unfoldable pub build_validation_error_response : View Body → String → Response
build_validation_error_response v message = record {
  code = code_of Errcode.invalid_params;
  reason = reason_of Errcode.invalid_params;
  message = message;
  payload = none;
  metadata = build_metadata v;
}

abbrev before : Option Time → Time → Bool
before none t = false
before (some s) t = ltb s t

-- `ctx.Err()` is DeadlineExceeded once the deadline has come, unless the context was cancelled first.
abbrev exceeded : Option Time → Option Time → Time → Bool
exceeded none cancelled now = false
exceeded (some deadline) cancelled now = leb deadline now && not (before cancelled deadline)

unfoldable pub deadline_exceeded : RequestContext → Time → Bool
deadline_exceeded ctx now = exceeded ctx.deadline ctx.cancelled now

unfoldable pub request_timed_out : View Body → Bool
unfolding deadline_exceeded
request_timed_out v = deadline_exceeded v.request.context v.now

abbrev pub or_internal : Option Error → Error
or_internal none = Errcode.internal_error
or_internal (some e) = e

-- The error that WriteError answers with.
unfoldable pub answered : View Body → Failure → Error
unfolding as_coded request_timed_out
answered v err =
    let ec = or_internal (as_coded err) in
    if leb 500 (http_status ec) && request_timed_out v then Errcode.request_timeout else ec

module _ (g : Gin Body) where
  open g use {Context, view, set, json, abort_with_status_json}

  unfoldable pub write_success : Payload → Context → Context
  write_success payload c =
      json 200 (envelope (success_response payload)) (set metrics_code_key (number (pos 0)) c)

  write_coded : Error → Context → Context
  write_coded ec c =
      let c' = set metrics_code_key (number (code_of ec)) c in
      json (http_status ec) (envelope (error_response (view c') ec)) c'

  unfoldable pub write_error : Failure → Context → Context
  unfolding write_coded
  write_error err c = write_coded (answered (view c) err) c

  unfoldable pub abort_error : Error → Context → Context
  abort_error ec c =
      let c' = set metrics_code_key (number (code_of ec)) c in
      abort_with_status_json (http_status ec) (envelope (error_response (view c') ec)) c'

  unfoldable pub write_validation_error : String → Context → Context
  write_validation_error message c =
      let c' = set metrics_code_key (number (code_of Errcode.invalid_params)) c in
      json (http_status Errcode.invalid_params)
        (envelope (build_validation_error_response (view c') message)) c'
